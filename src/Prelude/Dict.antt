-- ===== src/Prelude/Dict.antt =====
-- A JavaScript object or `Map` with text keys: an association list in insertion order, where a
-- key that is there keeps its place when it is written again.
use brainstem_mcp.Prelude.{
  Bool, Bool-cases, List, Option, Option-cases, Text, [], arith, false, if◌then◌else◌, inl, inr,
  none, refl, some, text_eq, text_eq_iff, text_eq_refl, true, ℕ, ◌+◌, ◌∷◌, ◌≡◌,
}

module _ {ℓ} {V : Type ℓ} where
  unfoldable pub get : Text → List (Text × V) → Option V
  get k [] = none
  get k ((j, v) ∷ d) = if text_eq j k then some v else get k d

  unfoldable pub put : Text → V → List (Text × V) → List (Text × V)
  put k v [] = (k, v) ∷ []
  put k v ((j, w) ∷ d) = if text_eq j k then (j, v) ∷ d else (j, w) ∷ put k v d

  unfoldable pub delete : Text → List (Text × V) → List (Text × V)
  delete k [] = []
  delete k ((j, w) ∷ d) = let rest = delete k d in if text_eq j k then rest else (j, w) ∷ rest

  unfoldable pub delete_all : List Text → List (Text × V) → List (Text × V)
  unfolding delete
  delete_all [] d = d
  delete_all (k ∷ ks) d = delete_all ks (delete k d)

  -- A loop over the values that writes each of them.
  unfoldable pub map_values : (V → V) → List (Text × V) → List (Text × V)
  map_values f [] = []
  map_values f ((j, w) ∷ d) = (j, f w) ∷ map_values f d

  -- A loop over the entries (of `Object.entries`) that deletes the keys of those that the test names.
  unfoldable pub drop_loop : (V → Bool) → List (Text × V) → List (Text × V) → List (Text × V)
  unfolding delete
  drop_loop p [] d = d
  drop_loop p ((k, v) ∷ es) d = drop_loop p es (if p v then delete k d else d)

  unfoldable pub drop_values : (V → Bool) → List (Text × V) → List (Text × V)
  unfolding drop_loop
  drop_values p d = drop_loop p d d

  unfoldable pub count_values : (V → Bool) → List (Text × V) → ℕ
  count_values p [] = 0
  count_values p ((j, w) ∷ d) = (if p w then 1 else 0) + count_values p d

  unfoldable pub keys : List (Text × V) → List Text
  keys [] = []
  keys ((j, w) ∷ d) = j ∷ keys d

  abbrev pub map_option : (V → V) → Option V → Option V
  map_option f none = none
  map_option f (some v) = some (f v)

  pub get-put :
      (k j : Text) (v : V) (d : List (Text × V))
      → get j (put k v d) ≡ (if text_eq k j then some v else get j d)
  unfolding get put
  get-put k j v [] = refl
  get-put k j v ((i, w) ∷ d) =
      ground (arith, text_eq_iff k j, text_eq_iff i k, text_eq_iff i j, get-put k j v d)

  pub get-delete :
      (k j : Text) (d : List (Text × V))
      → get j (delete k d) ≡ (if text_eq k j then none else get j d)
  unfolding get delete
  get-delete k j [] = ground arith
  get-delete k j ((i, w) ∷ d) =
      ground (arith, text_eq_iff k j, text_eq_iff i k, text_eq_iff i j, get-delete k j d)

  pub get-map_values :
      (f : V → V) (j : Text) (d : List (Text × V)) → get j (map_values f d) ≡ map_option f (get j d)
  unfolding get map_values
  get-map_values f j [] = refl
  get-map_values f j ((i, w) ∷ d) = ground (arith, get-map_values f j d)

  get_of_get-delete :
      (k j : Text) (v : V) (d : List (Text × V)) → get j (delete k d) ≡ some v → get j d ≡ some v
  get_of_get-delete k j v d e = ground (arith, get-delete k j d)

  get_of_get-drop_loop :
      (p : V → Bool) (j : Text) (v : V) (es d : List (Text × V))
      → get j (drop_loop p es d) ≡ some v
      → get j d ≡ some v
  unfolding drop_loop
  get_of_get-drop_loop p j v [] d e = e
  get_of_get-drop_loop p j v ((k, w) ∷ es) d e = elim (Bool-cases (p w)) [
    | inl gone ↦
        get_of_get-delete k j v d (get_of_get-drop_loop p j v es (delete k d) (rw gone at e))
    | inr stays ↦ get_of_get-drop_loop p j v es d (rw stays at e)
  ]

  -- What the loop leaves was there before.
  pub get_of_get-drop_values :
      (p : V → Bool) (j : Text) (v : V) (d : List (Text × V))
      → get j (drop_values p d) ≡ some v
      → get j d ≡ some v
  unfolding drop_values
  get_of_get-drop_values p j v d e = get_of_get-drop_loop p j v d d e

  absent-drop_loop :
      (p : V → Bool) (j : Text) (es d : List (Text × V))
      → get j d ≡ none
      → get j (drop_loop p es d) ≡ none
  absent-drop_loop p j es d h = elim (Option-cases (get j (drop_loop p es d))) [
    | inl gone ↦ gone
    | inr (v, e) ↦ cc (get_of_get-drop_loop p j v es d e)
  ]

  get-drop_loop_dropped :
      (p : V → Bool) (j : Text) (v : V) (es d : List (Text × V))
      → get j es ≡ some v
      → p v ≡ true
      → get j (drop_loop p es d) ≡ none
  unfolding get drop_loop
  get-drop_loop_dropped p j v [] d e h = cc
  get-drop_loop_dropped p j v ((k, w) ∷ es) d e h = elim (Bool-cases (text_eq k j)) [
    | inl same ↦
        let b : w ≡ v = ground arith in
        rw (b, h) (absent-drop_loop p j es (delete k d) (rw (get-delete k j d, same)))
    | inr other ↦ get-drop_loop_dropped p j v es (if p w then delete k d else d) (ground arith) h
  ]

  -- What the loop leaves passes the test.
  pub drop_values-passes :
      (p : V → Bool) (j : Text) (v : V) (d : List (Text × V))
      → get j (drop_values p d) ≡ some v
      → p v ≡ false
  unfolding drop_values
  drop_values-passes p j v d e = elim (Bool-cases (p v)) [
    | inl bad ↦ cc (get-drop_loop_dropped p j v d d (get_of_get-drop_loop p j v d d e) bad)
    | inr good ↦ good
  ]

  pub get-put_self : (k : Text) (v : V) (d : List (Text × V)) → get k (put k v d) ≡ some v
  get-put_self k v d = rw (get-put k k v d, text_eq_refl k)

pub ruleset dict_laws = (get-put, get-delete, get-map_values)
