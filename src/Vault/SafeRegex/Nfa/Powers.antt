-- ===== src/Vault/SafeRegex/Nfa/Powers.antt =====
-- src/vault/safe-regex.ts: the pieces of a repetition read a number of texts in a row.
use brainstem_mcp.Prelude.{
  List, Option, [], ap, arith, inl, inr, none, refl, some, subst, suc, sym, zero, ℕ, ◌++◌, ◌+◌, ◌-◌,
  ◌∙◌, ◌∷◌, ◌≡◌, ◌≤◌,
}
use brainstem_mcp.Vault.SafeRegex.{max_repeat}
use brainstem_mcp.Vault.SafeRegex.Language.{Power, Texts, Then, Times}
use brainstem_mcp.Vault.SafeRegex.Nfa.{replicate}
use brainstem_mcp.Vault.SafeRegex.Nfa.Branches.{Maybe}
use brainstem_mcp.Vault.SafeRegex.Nfa.Chains.{Seq}
use mathlib.Core.List.{append-nil, append_assoc}

Power-append :
    (L : Texts) (a b : ℕ) (u v : List ℕ) → Power L a u → Power L b v → Power L (a + b) (u ++ v)
Power-append L zero b u v p q =
    let none_more : b ≡ 0 + b = omega arith in
    let same : v ≡ u ++ v = ap (λ z. z ++ v) (sym p) in
    subst (λ n. Power L n (u ++ v)) none_more (subst (Power L b) same q)
Power-append L (suc a) b u v (x, y, parts, l, ls) q =
    let count : suc (a + b) ≡ suc a + b = omega arith in
    let rest = Power-append L a b y v ls q in
    subst (λ n. Power L n (u ++ v)) count
      (x, y ++ v, ap (λ z. z ++ v) parts ∙ append_assoc x y v, l, rest)

Power-split :
    (L : Texts) (a b : ℕ) (w : List ℕ) → Power L (a + b) w → Then (Power L a) (Power L b) w
Power-split L zero b w p =
    let none_more : 0 + b ≡ b = omega arith in
    ([], w, refl, refl, subst (λ n. Power L n w) none_more p)
Power-split L (suc a) b w p =
    let count : suc a + b ≡ suc (a + b) = omega arith in
    let (x, y, parts, l, ls) : Power L (suc (a + b)) w = subst (λ n. Power L n w) count p in
    let (u, v, parts', ls', rest) = Power-split L a b y ls in
    (x ++ u, v, parts ∙ ap (◌++◌ x) parts' ∙ sym (append_assoc x u v), (x, u, refl, l, ls'), rest)

Seq-append : (Ls Ms : List Texts) (w : List ℕ) → Seq (Ls ++ Ms) w → Then (Seq Ls) (Seq Ms) w
Seq-append [] Ms w s = ([], w, refl, refl, s)
Seq-append (L ∷ Ls) Ms w (x, y, parts, l, s) =
    let (u, v, parts', ls, ms) = Seq-append Ls Ms y s in
    (x ++ u, v, parts ∙ ap (◌++◌ x) parts' ∙ sym (append_assoc x u v), (x, u, refl, l, ls), ms)

Seq-join : (Ls Ms : List Texts) (u v : List ℕ) → Seq Ls u → Seq Ms v → Seq (Ls ++ Ms) (u ++ v)
Seq-join [] Ms u v s t = let same : v ≡ u ++ v = ap (λ z. z ++ v) (sym s) in subst (Seq Ms) same t
Seq-join (L ∷ Ls) Ms u v (x, y, parts, l, s) t =
    (x, y ++ v, ap (λ z. z ++ v) parts ∙ append_assoc x y v, l, Seq-join Ls Ms y v s t)

Seq→Power : (L : Texts) (k : ℕ) (w : List ℕ) → Seq (replicate k L) w → Power L k w
Seq→Power L zero w s = s
Seq→Power L (suc k) w (x, y, parts, l, s) = (x, y, parts, l, Seq→Power L k y s)

Power→Seq : (L : Texts) (k : ℕ) (w : List ℕ) → Power L k w → Seq (replicate k L) w
Power→Seq L zero w s = s
Power→Seq L (suc k) w (x, y, parts, l, s) = (x, y, parts, l, Power→Seq L k y s)

Maybes→Power :
    (L : Texts) (k : ℕ) (w : List ℕ)
    → Seq (replicate k (Maybe L)) w
    → (j : ℕ) × (j ≤ k) × Power L j w
Maybes→Power L zero w s = (0, omega arith, s)
Maybes→Power L (suc k) w (x, y, parts, inl none_read, s) =
    let (j, h, p) = Maybes→Power L k y s in
    let same : y ≡ w = sym (parts ∙ ap (λ z. z ++ y) none_read) in
    (j, omega (arith, h), subst (Power L j) same p)
Maybes→Power L (suc k) w (x, y, parts, inr l, s) =
    let (j, h, p) = Maybes→Power L k y s in (suc j, omega (arith, h), (x, y, parts, l, p))

Power→Maybes :
    (L : Texts) (k j : ℕ) (w : List ℕ) → j ≤ k → Power L j w → Seq (replicate k (Maybe L)) w
Power→Maybes L zero zero w h p = p
Power→Maybes L zero (suc j) w h p = absurd (omega arith)
Power→Maybes L (suc k) zero w h p = ([], w, refl, inl refl, Power→Maybes L k zero w (omega arith) p)
Power→Maybes L (suc k) (suc j) w h (x, y, parts, l, p) =
    (x, y, parts, inr l, Power→Maybes L k j y (omega arith) p)

-- What the pieces of a repetition read.
abbrev pub piece_texts : Texts → ℕ → Option ℕ → List Texts
piece_texts L min none = replicate min L ++ Times L 0 none ∷ []
piece_texts L min (some max) = replicate min L ++ replicate (max - min) (Maybe L)

abbrev pub InBounds : ℕ → Option ℕ → Type 0
InBounds min none = min ≤ max_repeat
InBounds min (some max) = (min ≤ max) × (max ≤ max_repeat)

pub pieces→Times :
    (L : Texts) (min : ℕ) (max : Option ℕ) (w : List ℕ)
    → InBounds min max
    → Seq (piece_texts L min max) w
    → Times L min max w
pieces→Times L min none w h s =
    let (u, v, parts, us, (x, y, parts', (k, _, p), done)) =
      Seq-append (replicate min L) (Times L 0 none ∷ []) w s in
    let same : v ≡ x = parts' ∙ ap (◌++◌ x) done ∙ append-nil x in
    let all_of : Power L (min + k) (u ++ x) = Power-append L min k u x (Seq→Power L min u us) p in
    (min + k, omega arith, subst (Power L (min + k)) (ap (◌++◌ u) (sym same) ∙ sym parts) all_of)
pieces→Times L min (some max) w h s =
    let (u, v, parts, us, vs) =
      Seq-append (replicate min L) (replicate (max - min) (Maybe L)) w s in
    let (j, less, p) = Maybes→Power L (max - min) v vs in
    (
      min + j,
      omega arith,
      omega (arith, less, h),
      subst (Power L (min + j)) (sym parts) (Power-append L min j u v (Seq→Power L min u us) p),
    )

pub Times→pieces :
    (L : Texts) (min : ℕ) (max : Option ℕ) (w : List ℕ)
    → Times L min max w
    → Seq (piece_texts L min max) w
Times→pieces L min none w (k, h, p) =
    let count : k ≡ min + (k - min) = omega (arith, h) in
    let (u, v, parts, us, vs) = Power-split L min (k - min) w (subst (λ n. Power L n w) count p) in
    subst (Seq (replicate min L ++ Times L 0 none ∷ [])) (sym parts) (
      Seq-join (replicate min L) (Times L 0 none ∷ []) u v (Power→Seq L min u us)
        (v, [], sym (append-nil v), (k - min, omega arith, vs), refl))
Times→pieces L min (some max) w (k, h, top, p) =
    let count : k ≡ min + (k - min) = omega (arith, h) in
    let (u, v, parts, us, vs) = Power-split L min (k - min) w (subst (λ n. Power L n w) count p) in
    subst (Seq (replicate min L ++ replicate (max - min) (Maybe L))) (sym parts) (
      Seq-join (replicate min L) (replicate (max - min) (Maybe L)) u v (Power→Seq L min u us)
        (Power→Maybes L (max - min) (k - min) v (omega (arith, top)) vs))
