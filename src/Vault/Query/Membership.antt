-- ===== src/Vault/Query/Membership.antt =====
-- src/vault/query.ts: the condition "in" is that one of its values is equal.
use brainstem_mcp.Prelude.{
  All, All-map, Bool, Bool-cases, List, Option, [], any, ap, ap₂, arith, false, if◌then◌else◌, inl,
  inr, map, none, not, refl, some, sym, true, ||-true, ◌&&◌, ◌||◌, ◌∙◌, ◌∷◌, ◌≡◌,
}
use brainstem_mcp.Storage.Types.{ok}
use brainstem_mcp.Vault.Links.{LinkKey, key_from, same_link_key}
use brainstem_mcp.Vault.Links.Laws.{link_key-starts_with}
use brainstem_mcp.Vault.Query.{
  Element, Runtime, Value, Wanted, array, boolean, element_matches, is_link_key, is_null, is_same,
  key_of, matches_eq, matches_in, may_be_link, missing, null, number, object, one, text,
  typed_compare, wanted,
}
use brainstem_mcp.Vault.Query.Conditions.{compile_in}

module _ {W : Type 0} where
  any-map {κ} :
      {X : Type κ} (p : W → Bool) (f : X → W) (xs : List X)
      → any p (map f xs) ≡ any (λ x. p (f x)) xs
  any-map p f [] = refl
  any-map p f (x ∷ xs) = ap (λ b. p (f x) || b) (any-map p f xs)

  any_same : (p q : W → Bool) (ws : List W) → All (λ w. p w ≡ q w) ws → any p ws ≡ any q ws
  any_same p q [] h = refl
  any_same p q (w ∷ ws) (e, h) = ap₂ ◌||◌ e (any_same p q ws h)

  any-|| : (p q : W → Bool) (ws : List W) → any (λ w. p w || q w) ws ≡ (any p ws || any q ws)
  any-|| p q [] = refl
  any-|| p q (w ∷ ws) = ground (arith, any-|| p q ws)

  any_none : (ws : List W) → any (λ (w : W). false) ws ≡ false
  any_none [] = refl
  any_none (w ∷ ws) = any_none ws

  any_swap {κ} :
      {X : Type κ} (f : X → W → Bool) (xs : List X) (ws : List W)
      → any (λ x. any (f x) ws) xs ≡ any (λ w. any (λ x. f x w) xs) ws
  any_swap f [] ws = sym (any_none ws)
  any_swap f (x ∷ xs) ws =
      ap (λ b. any (f x) ws || b) (any_swap f xs ws)
      ∙ sym (any-|| (f x) (λ w. any (λ x. f x w) xs) ws)

  module _ (m : Bool) (c s l : W → Bool) (links : (w : W) → s w ≡ true → (m || l w) ≡ true) where
    any_links : (ws : List W) → any s ws ≡ true → (m || any l ws) ≡ true
    any_links [] h = cc
    any_links (w ∷ ws) h = elim (||-true (s w) (any s ws) h) [
      | inl e ↦ let k = links w e in ground arith
      | inr e ↦ let k = any_links ws e in ground arith
    ]

    -- One value against all: the same as against each.
    together :
        (ws : List W)
        → (if any c ws then true else if not m && not (any l ws) then false else any s ws)
          ≡ (any c ws || any s ws)
    together ws = elim (Bool-cases (any s ws)) [
      | inl e ↦ let k = any_links ws e in ground arith
      | inr e ↦ ground arith
    ]

    alone :
        (w : W)
        → (if c w || false then true else if not m && not (l w) then false else (s w || false))
          ≡ (c w || s w)
    alone w = elim (Bool-cases (s w)) [
      | inl e ↦ let k = links w e in ground arith
      | inr e ↦ ground arith
    ]

    each :
        (ws : List W)
        → any
            (λ w.
              if c w || false then true else if not m && not (l w) then false else (s w || false))
            ws
          ≡ (any c ws || any s ws)
    each ws = any_same _ (λ w. c w || s w) ws (all_alone ws) ∙ any-|| c s ws
      where
        all_alone :
            (ws : List W)
            → All
                (λ w.
                  (if c w || false
                    then true
                    else if not m && not (l w)
                    then false
                    else (s w || false))
                  ≡ (c w || s w))
                ws
        all_alone [] = tt
        all_alone (w ∷ ws) = (alone w, all_alone ws)

module _ {N O : Type 0} (r : Runtime N O) where
  key_of_link :
      (el : Element N O) → is_link_key r (key_of r (one el)) ≡ true → may_be_link r (one el) ≡ true
  unfolding key_of key_from
  key_of_link missing h = cc
  key_of_link null h = cc
  key_of_link (boolean b) h = cc
  key_of_link (number x) h = cc
  key_of_link (object o) h = cc
  key_of_link (text s) h = link_key-starts_with r.lower s h

  same_link_key_link :
      (a b : Option LinkKey)
      → same_link_key a b ≡ true
      → (is_link_key r a || is_link_key r b) ≡ true
  unfolding same_link_key
  same_link_key_link none b h = cc
  same_link_key_link (some a) none h = cc
  same_link_key_link (some a) (some b) h = ground arith

  element_matches-any :
      (el : Element N O) (ws : List (Wanted r))
      → element_matches r el ws (any (λ (w : Wanted r). is_link_key r w.key) ws)
        ≡ any (λ (w : Wanted r). element_matches r el (w ∷ []) (is_link_key r w.key)) ws
  unfolding element_matches
  element_matches-any el ws =
      let m = may_be_link r (one el) in
      let c = λ (w : Wanted r). is_same (typed_compare r (one el) w.value) in
      let s = λ (w : Wanted r). same_link_key (key_of r (one el)) w.key in
      let l = λ (w : Wanted r). is_link_key r w.key in
      let links = λ (w : Wanted r) (h : s w ≡ true). linked el w h in
      together m c s l links ws ∙ sym (each m c s l links ws)
    where
      linked :
          (el : Element N O) (w : Wanted r)
          → same_link_key (key_of r (one el)) w.key ≡ true
          → (may_be_link r (one el) || is_link_key r w.key) ≡ true
      linked el w h =
          elim (||-true (is_link_key r (key_of r (one el))) (is_link_key r w.key)
            (same_link_key_link (key_of r (one el)) w.key h)) [
              | inl e ↦ let k = key_of_link el e in ground arith
              | inr e ↦ ground arith
            ]

  NotNull : Wanted r → Type 0
  NotNull w = is_null w.value ≡ false

  single :
      (el : Element N O) (ws : List (Wanted r))
      → All (λ (w : Wanted r). is_null w.value ≡ false) ws
      → any (λ (w : Wanted r). element_matches r el (w ∷ []) (is_link_key r w.key)) ws
        ≡ any
            (λ (w : Wanted r).
              if is_null w.value
              then false
              else element_matches r el (w ∷ []) (is_link_key r w.key))
            ws
  single el ws h = any_same _ _ ws (All-map ws (λ w e. rw e refl) h)

  matches_in-any :
      (field : Value N O) (ws : List (Wanted r))
      → All (λ (w : Wanted r). is_null w.value ≡ false) ws
      → matches_in r field ws (any (λ (w : Wanted r). is_link_key r w.key) ws)
        ≡ any (matches_eq r field) ws
  unfolding matches_in matches_eq
  matches_in-any (one missing) ws h = sym (any_none ws)
  matches_in-any (one null) ws h = refl
  matches_in-any (one (boolean b)) ws h =
      element_matches-any (boolean b) ws ∙ single (boolean b) ws h
  matches_in-any (one (number x)) ws h = element_matches-any (number x) ws ∙ single (number x) ws h
  matches_in-any (one (text s)) ws h = element_matches-any (text s) ws ∙ single (text s) ws h
  matches_in-any (one (object o)) ws h = element_matches-any (object o) ws ∙ single (object o) ws h
  matches_in-any (array els) ws h =
      any_elements els
      ∙ any_swap (λ el (w : Wanted r). element_matches r el (w ∷ []) (is_link_key r w.key)) els ws
      ∙ any_same _ _ ws (All-map ws (λ w e. rw e refl) h)
    where
      any_elements :
          (els : List (Element N O))
          → any (λ el. element_matches r el ws (any (λ (w : Wanted r). is_link_key r w.key) ws)) els
            ≡ any
                (λ el.
                  any (λ (w : Wanted r). element_matches r el (w ∷ []) (is_link_key r w.key)) ws)
                els
      any_elements [] = refl
      any_elements (el ∷ els) = ap₂ ◌||◌ (element_matches-any el ws) (any_elements els)

  -- A condition "in" over values none of which is null passes exactly where the condition "eq"
  -- passes for one of them, whatever the field holds: also for links and for array fields.
  pub compile_in-any_eq :
      (els : List (Element N O)) (field : Value N O) (test : Value N O → Bool)
      → All (λ el. is_null (one el) ≡ false) els
      → compile_in r (array els) ≡ ok test
      → test field ≡ any (λ el. matches_eq r field (wanted r (one el))) els
  unfolding compile_in wanted
  compile_in-any_eq els field test h e =
      let many = map (λ el. wanted r (one el)) els in
      let found : (λ field.
        matches_in r field many (any (λ (w : Wanted r). is_link_key r w.key) many))
          ≡ test =
        cc in
      ap (λ f. f field) (sym found)
      ∙ matches_in-any field many (not_null els h)
      ∙ any-map (matches_eq r field) (λ el. wanted r (one el)) els
    where
      not_null :
          (els : List (Element N O))
          → All (λ el. is_null (one el) ≡ false) els
          → All (λ (w : Wanted r). is_null w.value ≡ false) (map (λ el. wanted r (one el)) els)
      not_null [] h = tt
      not_null (el ∷ els) (e, h) = (e, not_null els h)
