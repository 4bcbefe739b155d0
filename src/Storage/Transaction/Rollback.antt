-- ===== src/Storage/Transaction/Rollback.antt =====
-- src/storage/transaction.ts: what the rollback puts back, path by path.
use brainstem_mcp.Prelude.{
  All, Bool-cases, List, Option, Option-cases, Text, [], ap, arith, false, inl, inr, is_some, none,
  refl, some, sym, text_eq, text_eq-eq, true, ◌∙◌, ◌∷◌, ◌≡◌, ◌⊎◌,
}
use brainstem_mcp.Prelude.Dict.{get}
use brainstem_mcp.Prelude.Sort.{member}
use brainstem_mcp.Storage.Transaction.{Node, Services, Vault, folder}
use brainstem_mcp.Storage.Transaction.Adapter.{Adapter, Disk}
use brainstem_mcp.Storage.Transaction.Atomic.{AdapterLaws, IsStable, NotBelow, Same, in_trash}
use brainstem_mcp.Storage.Transaction.Frames.{IsFaithful}
use brainstem_mcp.Storage.Transaction.Run.{
  existed, remove_created, restore, rollback, set_node, tolerated, write_journal,
}
use brainstem_mcp.Storage.Transaction.Simulate.{Sim}
use brainstem_mcp.Storage.Types.{ErrorCode, io}

-- At the path is what was there, or it is no path of the run, nothing was there and a folder is.
abbrev pub Restored : List Text → Vault → Vault → Text → Type 0
Restored ps v w q = (w q ≡ v q) ⊎ ((member q ps ≡ false) × (v q ≡ none) × (w q ≡ some folder))

pub existed-false :
    (σ : Sim) (v : Vault) (p : Text) → IsFaithful v σ → existed σ v p ≡ false → v p ≡ none
existed-false σ v p h e = elim (Option-cases (get p σ.on_disk)) [
  | inl fresh ↦ is_some-false (v p) (let q : is_some (v p) ≡ false = rw (fresh, existed) at e in q)
  | inr (hash, known) ↦
      is_some-false (v p)
        (let q : is_some hash ≡ false = rw (known, existed) at e in sym (h.at p hash known) ∙ q)
]
  where
    is_some-false : {A : Type 0} (o : Option A) → is_some o ≡ false → o ≡ none
    is_some-false none e = refl
    is_some-false (some a) e = ground arith

set_node-same :
    (p q : Text) (n : Option Node) (u : Vault) → text_eq p q ≡ true → set_node p n u q ≡ n
unfolding set_node
set_node-same p q n u e = rw e refl

set_node-keeps : (v u : Vault) (p q : Text) → u q ≡ v q → set_node p (v p) u q ≡ v q
unfolding set_node
set_node-keeps v u p q h = elim (Bool-cases (text_eq p q)) [
  | inl e ↦ rw e (ap v (text_eq-eq p q e))
  | inr e ↦ rw e h
]

module _ (disk : Disk) (σ : Sim) (v : Vault) where
  abbrev restored : List Text → Vault → Vault × Option ErrorCode
  restored ps u = restore disk (write_journal σ v ps).pre_images u

  restored-put :
      (u : Vault) (p : Text) (ps : List Text)
      → existed σ v p ≡ true
      → disk.restored p ≡ true
      → restored (p ∷ ps) u ≡ restored ps (set_node p (v p) u)
  unfolding restore write_journal
  restored-put u p ps e d = rw e (rw d refl)

  restored-stop :
      (u : Vault) (p : Text) (ps : List Text)
      → existed σ v p ≡ true
      → disk.restored p ≡ false
      → restored (p ∷ ps) u ≡ (u, some io)
  unfolding restore write_journal
  restored-stop u p ps e d = rw e (rw d refl)

  restored-free :
      (u : Vault) (p : Text) (ps : List Text)
      → existed σ v p ≡ false
      → restored (p ∷ ps) u ≡ restored ps u
  unfolding restore write_journal
  restored-free u p ps e = rw e refl

  -- What is at `q` as before the transaction stays so: every pre-image is the node of that time.
  pub restore-keeps :
      (u : Vault) (ps : List Text) (q : Text) → u q ≡ v q → (restored ps u).0 q ≡ v q
  unfolding restore write_journal
  restore-keeps u [] q h = h
  restore-keeps u (p ∷ ps) q h = elim (Bool-cases (existed σ v p)) [
    | inl e ↦ elim (Bool-cases (disk.restored p)) [
      | inl d ↦
          rw (restored-put u p ps e d)
            (restore-keeps (set_node p (v p) u) ps q (set_node-keeps v u p q h))
      | inr d ↦ rw (restored-stop u p ps e d) h
    ]
    | inr e ↦ rw (restored-free u p ps e) (restore-keeps u ps q h)
  ]

  restore-other :
      (u : Vault) (ps : List Text) (q : Text) → member q ps ≡ false → (restored ps u).0 q ≡ u q
  unfolding restore write_journal member set_node
  restore-other u [] q m = refl
  restore-other u (p ∷ ps) q m =
      let other : text_eq p q ≡ false = ground arith in
      let rest : member q ps ≡ false = ground arith in
      elim (Bool-cases (existed σ v p)) [
        | inl e ↦ elim (Bool-cases (disk.restored p)) [
          | inl d ↦
              rw (restored-put u p ps e d)
                (restore-other (set_node p (v p) u) ps q rest ∙ rw other refl)
          | inr d ↦ rw (restored-stop u p ps e d) refl
        ]
        | inr e ↦ rw (restored-free u p ps e) (restore-other u ps q rest)
      ]

  -- If every file was restored, those that existed are as before.
  pub restore-puts :
      (u : Vault) (ps : List Text) (q : Text)
      → (restored ps u).1 ≡ none
      → member q ps ≡ true
      → existed σ v q ≡ true
      → (restored ps u).0 q ≡ v q
  unfolding member
  restore-puts u [] q h m x = cc
  restore-puts u (p ∷ ps) q h m x = elim (Bool-cases (existed σ v p)) [
    | inl e ↦ elim (Bool-cases (disk.restored p)) [
      | inl d ↦ elim (Bool-cases (text_eq p q)) [
        | inl same ↦ rw (restored-put u p ps e d) (
            restore-keeps (set_node p (v p) u) ps q
              (set_node-same p q (v p) u same ∙ ap v (text_eq-eq p q same)))
        | inr other ↦ rw (restored-put u p ps e d) (
            restore-puts (set_node p (v p) u) ps q (rw (restored-put u p ps e d) at h)
              (rw other at m) x)
      ]
      | inr d ↦ let stop : some io ≡ none = rw (restored-stop u p ps e d) at h in cc
    ]
    | inr e ↦ rw (restored-free u p ps e) (
        restore-puts u ps q (rw (restored-free u p ps e) at h)
          (elim (Bool-cases (text_eq p q)) [
            | inl same ↦
                let gone : existed σ v q ≡ false = rw (← text_eq-eq p q same) e in
                let no : true ≡ false = sym x ∙ gone in cc
            | inr other ↦ rw other at m
          ])
          x)
  ]

module _ (s : Services) (a : Adapter s.FmSet) (laws : AdapterLaws s.nfc a) (σ : Sim) (v : Vault)
    (faithful : IsFaithful v σ) where
  abbrev removed : List Text → Vault → Vault × Option ErrorCode
  removed ps u = remove_created a (write_journal σ v ps).created u

  removed-existed :
      (u : Vault) (p : Text) (ps : List Text)
      → existed σ v p ≡ true
      → removed (p ∷ ps) u ≡ removed ps u
  unfolding remove_created write_journal
  removed-existed u p ps e = rw e refl

  removed-next :
      (u : Vault) (p : Text) (ps : List Text)
      → existed σ v p ≡ false
      → tolerated (a.hard_delete p u).1 ≡ true
      → removed (p ∷ ps) u ≡ removed ps (a.hard_delete p u).0
  unfolding remove_created write_journal
  removed-next u p ps e t = rw e (rw (t, remove_created) refl)

  removed-stop :
      (u : Vault) (p : Text) (ps : List Text)
      → existed σ v p ≡ false
      → tolerated (a.hard_delete p u).1 ≡ false
      → removed (p ∷ ps) u ≡ a.hard_delete p u
  unfolding remove_created write_journal
  removed-stop u p ps e t = rw e (rw (t, remove_created) refl)

  removed-fails :
      {A : Type 0} (u : Vault) (p : Text) (ps : List Text)
      → existed σ v p ≡ false
      → tolerated (a.hard_delete p u).1 ≡ false
      → (removed (p ∷ ps) u).1 ≡ none
      → A
  removed-fails u p ps e t h =
      let quiet : (a.hard_delete p u).1 ≡ none = rw (removed-stop u p ps e t) at h in
      let no : true ≡ false = rw quiet at t in cc

  module _ (q : Text) where
    -- A deletion of another path leaves `q`, and one of `q` leaves nothing, as before.
    deleted-keeps :
        (u : Vault) (p : Text)
        → IsStable s.nfc p
        → existed σ v p ≡ false
        → tolerated (a.hard_delete p u).1 ≡ true
        → u q ≡ v q ⊎ text_eq p q ≡ true
        → (a.hard_delete p u).0 q ≡ v q
    deleted-keeps u p st e t h = elim (Bool-cases (text_eq p q)) [
      | inl same ↦
          rw (← text_eq-eq p q same) (laws.deleted p u st t ∙ sym (existed-false σ v p faithful e))
      | inr other ↦ elim h [
        | inl h ↦ laws.hard_delete p u st q other ∙ h
        | inr same ↦ let no : true ≡ false = sym same ∙ other in cc
      ]
    ]

    removed-keeps :
        (u : Vault) (ps : List Text)
        → All (IsStable s.nfc) ps
        → (removed ps u).1 ≡ none
        → u q ≡ v q
        → (removed ps u).0 q ≡ v q
    unfolding remove_created write_journal
    removed-keeps u [] st h k = k
    removed-keeps u (p ∷ ps) st h k = elim (Bool-cases (existed σ v p)) [
      | inl e ↦
          rw (removed-existed u p ps e)
            (removed-keeps u ps st.1 (rw (removed-existed u p ps e) at h) k)
      | inr e ↦ elim (Bool-cases (tolerated (a.hard_delete p u).1)) [
        | inl t ↦ rw (removed-next u p ps e t) (
            removed-keeps (a.hard_delete p u).0 ps st.1 (rw (removed-next u p ps e t) at h)
              (deleted-keeps u p st.0 e t (inl k)))
        | inr t ↦ removed-fails u p ps e t h
      ]
    ]

    removed-puts :
        (u : Vault) (ps : List Text)
        → All (IsStable s.nfc) ps
        → (removed ps u).1 ≡ none
        → member q ps ≡ true
        → existed σ v q ≡ false
        → (removed ps u).0 q ≡ v q
    unfolding member
    removed-puts u [] st h m x = cc
    removed-puts u (p ∷ ps) st h m x = elim (Bool-cases (existed σ v p)) [
      | inl e ↦ rw (removed-existed u p ps e) (
          removed-puts u ps st.1 (rw (removed-existed u p ps e) at h)
            (elim (Bool-cases (text_eq p q)) [
              | inl same ↦
                  let no : true ≡ false = sym e ∙ (ap (existed σ v) (text_eq-eq p q same) ∙ x) in cc
              | inr other ↦ rw other at m
            ])
            x)
      | inr e ↦ elim (Bool-cases (tolerated (a.hard_delete p u).1)) [
        | inl t ↦ elim (Bool-cases (text_eq p q)) [
          | inl same ↦ rw (removed-next u p ps e t) (
              removed-keeps (a.hard_delete p u).0 ps st.1 (rw (removed-next u p ps e t) at h)
                (deleted-keeps u p st.0 e t (inr same)))
          | inr other ↦ rw (removed-next u p ps e t) (
              removed-puts (a.hard_delete p u).0 ps st.1 (rw (removed-next u p ps e t) at h)
                (rw other at m) x)
        ]
        | inr t ↦ removed-fails u p ps e t h
      ]
    ]

    removed-other :
        (u : Vault) (ps : List Text)
        → All (IsStable s.nfc) ps
        → (removed ps u).1 ≡ none
        → member q ps ≡ false
        → (removed ps u).0 q ≡ u q
    unfolding remove_created write_journal member
    removed-other u [] st h m = refl
    removed-other u (p ∷ ps) st h m =
        let other : text_eq p q ≡ false = ground arith in
        let rest : member q ps ≡ false = ground arith in
        elim (Bool-cases (existed σ v p)) [
          | inl e ↦
              rw (removed-existed u p ps e)
                (removed-other u ps st.1 (rw (removed-existed u p ps e) at h) rest)
          | inr e ↦ elim (Bool-cases (tolerated (a.hard_delete p u).1)) [
            | inl t ↦ rw (removed-next u p ps e t) (
                removed-other (a.hard_delete p u).0 ps st.1 (rw (removed-next u p ps e t) at h) rest
                ∙ laws.hard_delete p u st.0 q other)
            | inr t ↦ removed-fails u p ps e t h
          ]
        ]

  module _ (disk : Disk) (ps : List Text) (w : Vault) where
    abbrev back : Vault × Option ErrorCode
    back = restore disk (write_journal σ v ps).pre_images w

    rollback-continues :
        back.1 ≡ none → rollback a disk (write_journal σ v ps) w ≡ removed ps back.0
    unfolding rollback
    rollback-continues e = rw (e, rollback) refl

    rollback-stops :
        (x : ErrorCode) → back.1 ≡ some x → rollback a disk (write_journal σ v ps) w ≡ back
    unfolding rollback
    rollback-stops x e = rw (e, rollback) refl

    -- A rollback that finishes puts back everything, if only paths of the journal had changed.
    pub rollback-restores :
        All (IsStable s.nfc) ps
        → Same ps v w
        → (rollback a disk (write_journal σ v ps) w).1 ≡ none
        → (q : Text) → in_trash q ≡ false
        → NotBelow q ps
        → Restored ps v (rollback a disk (write_journal σ v ps) w).0 q
    rollback-restores st same h q out apart = elim (Option-cases back.1) [
      | inr (x, e) ↦ let no : some x ≡ none = sym e ∙ rw (rollback-stops x e) at h in cc
      | inl e ↦ rw (rollback-continues e) (
          let h : (removed ps back.0).1 ≡ none = rw (rollback-continues e) at h in
          elim (Bool-cases (member q ps)) [
            | inr m ↦
                let kept = removed-other q back.0 ps st h m ∙ restore-other disk σ v w ps q m in
                elim (same.at q out m apart) [
                  | inl as_before ↦ inl (kept ∙ as_before)
                  | inr (free, made) ↦ inr (m, free, kept ∙ made)
                ]
            | inl m ↦ elim (Bool-cases (existed σ v q)) [
              | inl x ↦ inl (removed-keeps q back.0 ps st h (restore-puts disk σ v w ps q e m x))
              | inr x ↦ inl (removed-puts q back.0 ps st h m x)
            ]
          ])
    ]
