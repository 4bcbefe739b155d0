-- ===== src/Storage/PathPolicy/Safe.antt =====
-- path-policy.ts: what an accepted path can hold.
use brainstem_mcp.Prelude.{
  &&-true, ==_iff, All, Avoids, Bool, Bool-cases, List, Option, Text, [], any, ap, arith, codes,
  extend, false, inl, inr, join, length, ltb, none, refl, some, split, starts_with, text_eq,
  text_eq-eq, true, ||-true, ℕ, ◌++◌, ◌==◌, ◌||◌, ◌∙◌, ◌∷◌, ◌≡◌, ◌≢◌, ◌⊎◌,
}
use brainstem_mcp.Prelude.Pieces.{split-Avoids, split-append, split-join}
use brainstem_mcp.Storage.PathPolicy.{
  absolute, collect, is_control, is_empty, is_forbidden, is_reserved_path, max_path_chars,
  normalize_vault_path, refuses, reserved_dir, slashes, trim, uri_scheme, windows_drive,
}
use brainstem_mcp.Storage.Types.{
  Ensures, Ensures-any, Ensures-bind, Ensures-eq, Ensures-reject_if, Result, err, ok, ◌>>=◌,
}

-- The segment holds no character that the split and the checks before it exclude.
abbrev IsClean : Text → Type 0
IsClean s = Avoids b'/' s × (any is_control s ≡ false) × (any (λ c. c == 92) s ≡ false)

-- A segment of a path that any tool may name.
pub record IsVisible (s : Text) : Type 0 where
  pub named : s ≢ []
  pub not_hidden : starts_with s (codes ".") ≡ false
  pub no_forbidden : any is_forbidden s ≡ false
  pub no_slash : Avoids b'/' s
  pub no_control : any is_control s ≡ false
  pub no_backslash : any (λ c. c == 92) s ≡ false

extend-none :
    (p : ℕ → Bool) (sep c : ℕ) (s : Text)
    → p c ≡ false
    → All (λ t. any p t ≡ false) (split sep s)
    → All (λ t. any p t ≡ false) (split sep (c ∷ s))
extend-none p sep c s h a = elim (Bool-cases (c == sep)) [
  | inl same ↦ rw same (refl, a)
  | inr other ↦ rw other (extended (split sep s) a)
]
  where
    extended :
        (ps : List Text) → All (λ t. any p t ≡ false) ps → All (λ t. any p t ≡ false) (extend c ps)
    extended [] a = (ground arith, tt)
    extended (q ∷ ps) a = (ground (arith, a.0), a.1)

pub split-none :
    (p : ℕ → Bool) (sep : ℕ) (s : Text) → any p s ≡ false → All (λ t. any p t ≡ false) (split sep s)
split-none p sep [] h = (refl, tt)
split-none p sep (c ∷ s) h =
    extend-none p sep c s (ground arith) (split-none p sep s (ground arith))

slashes-no_control : (s : Text) → any is_control s ≡ false → any is_control (slashes s) ≡ false
unfolding slashes
slashes-no_control [] h = refl
slashes-no_control (c ∷ s) h = ground (arith, slashes-no_control s)

slashes-no_backslash : (s : Text) → any (λ c. c == 92) (slashes s) ≡ false
unfolding slashes
slashes-no_backslash [] = refl
slashes-no_backslash (c ∷ s) = ground (arith, slashes-no_backslash s)

All-IsClean :
    (ps : List Text)
    → All (Avoids b'/') ps
    → All (λ t. any is_control t ≡ false) ps
    → All (λ t. any (λ c. c == 92) t ≡ false) ps
    → All IsClean ps
All-IsClean [] a b c = tt
All-IsClean (p ∷ ps) a b c = ((a.0, b.0, c.0), All-IsClean ps a.1 b.1 c.1)

kept-IsVisible :
    (first : Bool) (s : Text)
    → IsClean s
    → is_empty s ≡ false
    → refuses false first s ≡ false
    → IsVisible s
unfolding refuses
kept-IsVisible first [] c n r = cc
kept-IsVisible first (x ∷ s) c n r = record {
  named = cc;
  not_hidden = ground arith;
  no_forbidden = ground arith;
  no_slash = c.0;
  no_control = c.1;
  no_backslash = c.2;
}

pub collect-IsVisible :
    (first : Bool) (ps : List Text)
    → All IsClean ps
    → Ensures (All IsVisible) (collect false first ps)
unfolding collect
collect-IsVisible first [] a = tt
collect-IsVisible first (raw ∷ more) a =
    elim (Bool-cases (is_empty raw || text_eq raw (codes "."))) [
      | inl skipped ↦ rw skipped (collect-IsVisible first more a.1)
      | inr part ↦ rw part (elim (Bool-cases (refuses false first raw)) [
        | inl bad ↦ rw bad tt
        | inr good ↦ rw good (
            Ensures-bind (All IsVisible) (All IsVisible) (collect false false more) _
              (collect-IsVisible false more a.1)
              λ segs rest. (kept-IsVisible first raw a.0 (ground arith) good, rest))
      ])
    ]

-- The name of the server's own folder is never the first segment.
abbrev NotReserved : List Text → Type 0
NotReserved [] = Unit
NotReserved (s ∷ _) = text_eq s reserved_dir ≡ false

first_named : (raw : Text) → refuses false true raw ≡ false → text_eq raw reserved_dir ≡ false
unfolding refuses
first_named raw h = ground arith

collect-NotReserved : (ps : List Text) → Ensures NotReserved (collect false true ps)
unfolding collect
collect-NotReserved [] = tt
collect-NotReserved (raw ∷ more) = elim (Bool-cases (is_empty raw || text_eq raw (codes "."))) [
  | inl skipped ↦ rw skipped (collect-NotReserved more)
  | inr part ↦ rw part (elim (Bool-cases (refuses false true raw)) [
    | inl bad ↦ rw bad tt
    | inr good ↦ rw good (
        Ensures-bind (λ _. Unit) NotReserved (collect false false more) _
          (Ensures-any (collect false false more)) λ segs _. first_named raw good)
  ])
]

-- A text that starts with a prefix is the prefix and a rest.
starts_with-append : (s p : Text) → starts_with s p ≡ true → (rest : Text) × (s ≡ p ++ rest)
starts_with-append s [] h = (s, refl)
starts_with-append [] (c ∷ p) h = cc
starts_with-append (a ∷ s) (c ∷ p) h =
    let (same, later) = &&-true (a == c) (starts_with s p) h in
    let (rest, e) = starts_with-append s p later in (rest, cc ((==_iff a c).0 same))

-- The path that the segments make.
pub record IsContained (p : Text) : Type 0 where
  pub visible : (p ≡ []) ⊎ All IsVisible (split b'/' p)
  pub not_reserved : is_reserved_path p ≡ false

All-no_slash : (ps : List Text) → All IsVisible ps → All (Avoids b'/') ps
All-no_slash [] h = tt
All-no_slash (s ∷ ps) h = (h.0.no_slash, All-no_slash ps h.1)

starts_reserved :
    (p s : Text) (ps qs : List Text)
    → split b'/' p ≡ s ∷ ps
    → split b'/' p ≡ reserved_dir ∷ qs
    → text_eq s reserved_dir ≡ true
starts_reserved p s ps qs e e' = let same : s ≡ reserved_dir = cc in rw same refl

reserved-split :
    (p : Text) → is_reserved_path p ≡ true → (qs : List Text) × (split b'/' p ≡ reserved_dir ∷ qs)
unfolding is_reserved_path
reserved-split p h = elim (||-true _ _ h) [
  | inl whole ↦ ([], ap (split b'/') (text_eq-eq p reserved_dir whole))
  | inr inside ↦
      let (rest, q) = starts_with-append p (reserved_dir ++ codes "/") inside in
      (split b'/' rest, ap (split b'/') q ∙ split-append b'/' reserved_dir rest refl)
]

not_reserved_of_split :
    (p s : Text) (ps : List Text)
    → split b'/' p ≡ s ∷ ps
    → text_eq s reserved_dir ≡ false
    → is_reserved_path p ≡ false
not_reserved_of_split p s ps e n = elim (Bool-cases (is_reserved_path p)) [
  | inl bad ↦ let (qs, q) = reserved-split p bad in cc (starts_reserved p s ps qs e q)
  | inr good ↦ good
]

join-IsContained :
    (segs : List Text) → All IsVisible segs → NotReserved segs → IsContained (join b'/' segs)
unfolding is_reserved_path
join-IsContained [] h n = record { visible = inl refl; not_reserved = refl }
join-IsContained (s ∷ ps) h n =
    let e = split-join b'/' s ps (All-no_slash (s ∷ ps) h) in
    record {
      visible = inr (rw e h);
      not_reserved = not_reserved_of_split (join b'/' (s ∷ ps)) s ps e n;
    }

both :
    (P Q : List Text → Type 0) (m : Result (List Text))
    → Ensures P m
    → Ensures Q m
    → Ensures (λ a. P a × Q a) m
both P Q (ok a) p q = (p, q)
both P Q (err e) p q = tt

pieces-IsClean : (s : Text) → any is_control s ≡ false → All IsClean (split b'/' (slashes s))
pieces-IsClean s h =
    All-IsClean _ (split-Avoids b'/' (slashes s))
      (split-none is_control b'/' (slashes s) (slashes-no_control s h))
      (split-none (λ c. c == 92) b'/' (slashes s) (slashes-no_backslash s))

checked-IsContained :
    (s : Text)
    → any is_control s ≡ false
    → Ensures IsContained
        (collect false true (split b'/' (slashes s)) >>= λ segs. ok (join b'/' segs))
checked-IsContained s h =
    Ensures-bind (λ segs. All IsVisible segs × NotReserved segs) IsContained _ _
      (both (All IsVisible) NotReserved (collect false true (split b'/' (slashes s)))
        (collect-IsVisible true _ (pieces-IsClean s h)) (collect-NotReserved _))
      λ segs (v, n). join-IsContained segs v n

-- Whatever the input and the normalisation form, a path that is accepted without `allowInternal`
-- is the root or a list of named segments, none of them hidden, "." or "..", none with a slash,
-- a backslash, a control character or one of : * ? " < > |, and it is not inside the server's folder.
pub normalize_vault_path-IsContained :
    (nfc : Text → Text) (input : Option Text) (p : Text)
    → normalize_vault_path nfc false input ≡ ok p
    → IsContained p
unfolding normalize_vault_path
normalize_vault_path-IsContained nfc none p e = cc
normalize_vault_path-IsContained nfc (some input) p e =
    let s = nfc (trim input) in
    Ensures-eq IsContained _ p e (
      Ensures-reject_if IsContained (ltb max_path_chars (length s)) _ _ λ _.
        Ensures-reject_if IsContained (any is_control s) _ _ λ clean.
          Ensures-reject_if IsContained (uri_scheme s) _ _ λ _.
            Ensures-reject_if IsContained (absolute (slashes s)) _ _ λ _.
              Ensures-reject_if IsContained (windows_drive (slashes s)) _ _
                λ _. checked-IsContained s clean)
