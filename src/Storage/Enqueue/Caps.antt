-- ===== src/Storage/Enqueue/Caps.antt =====
-- The two tests of `apply_enqueue_atomic` of src/storage.rs, against what they are for: no job for a
-- queue that is being closed, and no queue over its cap.
use sepp.Prelude.{
  ℕ, suc, ◌+◌, ◌≤◌, ◌≡◌, refl, sym, ap, ◌∙◌, ◌↔◌, subst, true, false, List, [], ◌∷◌, Option, none,
  some, if◌then◌else◌, arith, Bool-cases, inl, inr,
}
use sepp.Prelude.Int.{ℤ, ltb_ℤ, leb_ℤ}
use sepp.Std.Bytes.{Text, ◌=ᵇ◌, =ᵇ_iff, =ᵇ-refl}
use sepp.Std.HashMap
use sepp.Std.HashMap.{HashMap, bytes_eq, IsMap, get-insert, insert-IsMap}
use sepp.Fjall.{Fjall}
use sepp.Proto.{Prost}
use sepp.Op.{PreparedJob}
use sepp.Index.{Indexes, live_depth}
use sepp.Storage.Enqueue.{is_closing, closing_jobs, wanted, over, cap_of, full_queues, is_empty}

-- The jobs of a batch that are for a queue, and the cap that the first of them names.
abbrev pub jobs_for : Text → List PreparedJob → ℕ
jobs_for q [] = 0
jobs_for q (p ∷ ps) = let rest = jobs_for q ps in if p.req.queue =ᵇ q then 1 + rest else rest

abbrev pub cap_for : Text → List PreparedJob → Option ℕ
cap_for q [] = none
cap_for q (p ∷ ps) = if p.req.queue =ᵇ q then p.limits.max_queue_depth else cap_for q ps

abbrev pub IsWithin : Option ℕ → ℕ → Type 0
IsWithin none n = Unit
IsWithin (some cap) n = n ≤ cap

-- A queue without a close tombstone, or with one whose deadline has come.
abbrev pub IsOpen : Option ℤ → ℤ → Type 0
IsOpen none now = Unit
IsOpen (some deadline) now = leb_ℤ deadline now ≡ true

abbrev pub AllOpen : Indexes → ℤ → List PreparedJob → Type 0
AllOpen ix now [] = Unit
AllOpen ix now (p ∷ ps) = IsOpen (HashMap.get ix.closing p.req.queue) now × AllOpen ix now ps

-- What `wanted` comes to for one queue.
raised : Option (ℕ × Option ℕ) → Option ℕ → ℕ × Option ℕ
raised none cap = (1, cap)
raised (some (count, first)) cap = (count + 1, first)

tally : Option (ℕ × Option ℕ) → Text → List PreparedJob → Option (ℕ × Option ℕ)
tally v q [] = v
tally v q (p ∷ ps) =
    if p.req.queue =ᵇ q then tally (some (raised v p.limits.max_queue_depth)) q ps else tally v q ps

tally-some :
    (count : ℕ) (cap : Option ℕ) (q : Text) (ps : List PreparedJob)
    → tally (some (count, cap)) q ps ≡ some (count + jobs_for q ps, cap)
unfolding tally raised
tally-some count cap q [] = ap (λ n. some (n, cap)) (omega arith)
tally-some count cap q (p ∷ ps) = elim (Bool-cases (p.req.queue =ᵇ q)) [
  | inl e ↦ rw e (tally-some (count + 1) cap q ps ∙ ap (λ n. some (n, cap)) (omega arith))
  | inr e ↦ rw e (tally-some count cap q ps)
]

-- What a queue has and is to get is within the cap.
Fits : Indexes → Text → Option (ℕ × Option ℕ) → Type 0
Fits ix q none = Unit
Fits ix q (some (count, cap)) = IsWithin cap (live_depth ix q + count)

tally-Fits :
    (ix : Indexes) (q : Text) (ps : List PreparedJob)
    → Fits ix q (tally none q ps) ↔ IsWithin (cap_for q ps) (live_depth ix q + jobs_for q ps)
unfolding tally raised Fits
tally-Fits ix q [] = (λ h. tt, λ h. tt)
tally-Fits ix q (p ∷ ps) = elim (Bool-cases (p.req.queue =ᵇ q)) [
  | inl e ↦ rw (e, tally-some 1 p.limits.max_queue_depth q ps) (λ h. h, λ h. h)
  | inr e ↦ rw e (tally-Fits ix q ps)
]

module _ ⦃db : Fjall⦄ ⦃prost : Prost⦄ where
  -- One round of `wanted`, given what the map has for the queue of the job.
  counted :
      HashMap Text (ℕ × Option ℕ)
      → PreparedJob
      → Option (ℕ × Option ℕ)
      → HashMap Text (ℕ × Option ℕ)
  counted m p v = elim v [
    | none ↦ HashMap.insert m p.req.queue (1, p.limits.max_queue_depth)
    | some (count, cap) ↦ HashMap.insert m p.req.queue (count + 1, cap)
  ]

  counted-insert :
      (m : HashMap Text (ℕ × Option ℕ)) (p : PreparedJob) (v : Option (ℕ × Option ℕ))
      → counted m p v ≡ HashMap.insert m p.req.queue (raised v p.limits.max_queue_depth)
  unfolding counted raised
  counted-insert m p none = refl
  counted-insert m p (some (count, cap)) = refl

  get-counted :
      (m : HashMap Text (ℕ × Option ℕ)) (p : PreparedJob) (q : Text)
      → HashMap.get (counted m p (HashMap.get m p.req.queue)) q ≡ (
          if p.req.queue =ᵇ q
          then some (raised (HashMap.get m q) p.limits.max_queue_depth)
          else HashMap.get m q)
  get-counted m p q =
      ap (λ (n : HashMap Text (ℕ × Option ℕ)). HashMap.get n q)
        (counted-insert m p (HashMap.get m p.req.queue))
      ∙ get-insert m p.req.queue q _
      ∙ elim (Bool-cases (p.req.queue =ᵇ q)) [
        | inl e ↦ rw (e, (=ᵇ_iff p.req.queue q).0 e) refl
        | inr e ↦ rw e refl
      ]

  get-wanted :
      (ps : List PreparedJob) (m : HashMap Text (ℕ × Option ℕ)) (q : Text)
      → HashMap.get (wanted ps m) q ≡ tally (HashMap.get m q) q ps
  unfolding wanted tally counted
  get-wanted [] m q = refl
  get-wanted (p ∷ ps) m q =
      get-wanted ps (counted m p (HashMap.get m p.req.queue)) q
      ∙ ap (λ v. tally v q ps) (get-counted m p q)
      ∙ elim (Bool-cases (p.req.queue =ᵇ q)) [ inl e ↦ rw e refl | inr e ↦ rw e refl ]

  wanted-IsMap :
      (ps : List PreparedJob) (m : HashMap Text (ℕ × Option ℕ)) → IsMap m → IsMap (wanted ps m)
  unfolding wanted counted
  wanted-IsMap [] m h = h
  wanted-IsMap (p ∷ ps) m h =
      wanted-IsMap ps (counted m p (HashMap.get m p.req.queue))
        (rw (counted-insert m p (HashMap.get m p.req.queue)) (insert-IsMap m p.req.queue _ h))

  over-Fits :
      (ix : Indexes) (q : Text) (count : ℕ) (cap : Option ℕ)
      → over ix q count cap ≡ false ↔ IsWithin cap (live_depth ix q + count)
  unfolding over
  over-Fits ix q count none = (λ h. tt, λ h. refl)
  over-Fits ix q count (some cap) = ground arith

  insert-is_empty :
      (full : HashMap Text ℕ) (q : Text) (n : ℕ) → is_empty (HashMap.insert full q n) ≡ false
  unfolding HashMap.insert is_empty
  insert-is_empty [] q n = refl
  insert-is_empty ((j, w) ∷ m) q n = elim (Bool-cases (j =ᵇ q)) [
    | inl e ↦ rw e refl
    | inr e ↦ rw e refl
  ]

  full_queues-kept :
      (ix : Indexes) (m : HashMap Text (ℕ × Option ℕ)) (full : HashMap Text ℕ)
      → is_empty full ≡ false
      → is_empty (full_queues ix m full) ≡ false
  unfolding full_queues
  full_queues-kept ix [] full h = h
  full_queues-kept ix ((q, (count, cap)) ∷ m) full h = elim (Bool-cases (over ix q count cap)) [
    | inl e ↦ rw e (full_queues-kept ix m _ (insert-is_empty full q (cap_of cap)))
    | inr e ↦ rw e (full_queues-kept ix m full h)
  ]

  -- If no queue is found full, every queue that the map counts fits.
  none_full-Fits :
      (ix : Indexes) (m : HashMap Text (ℕ × Option ℕ)) (q : Text)
      → is_empty (full_queues ix m []) ≡ true
      → Fits ix q (HashMap.get m q)
  unfolding full_queues Fits HashMap.get
  none_full-Fits ix [] q h = tt
  none_full-Fits ix ((j, (count, cap)) ∷ m) q h = elim (Bool-cases (over ix j count cap)) [
    | inl e ↦
        let g : is_empty (full_queues ix m (HashMap.insert [] j (cap_of cap))) ≡ true = rw e at h in
        cc (g, full_queues-kept ix m _ (insert-is_empty [] j (cap_of cap)))
    | inr e ↦
        let g : is_empty (full_queues ix m []) ≡ true = rw e at h in
        elim (Bool-cases (j =ᵇ q)) [
          | inl same ↦ rw same (
              subst (λ x. IsWithin cap (live_depth ix x + count)) ((=ᵇ_iff j q).0 same)
                ((over-Fits ix j count cap).0 e))
          | inr other ↦ rw other (none_full-Fits ix m q g)
        ]
  ]

  -- The other way round, for a map that has each queue once.
  Fits-none_full :
      (ix : Indexes) (m : HashMap Text (ℕ × Option ℕ))
      → IsMap m
      → ((q : Text) → Fits ix q (HashMap.get m q))
      → is_empty (full_queues ix m []) ≡ true
  unfolding full_queues is_empty Fits HashMap.get
  Fits-none_full ix [] d h = refl
  Fits-none_full ix ((j, (count, cap)) ∷ m) d h =
      let head : IsWithin cap (live_depth ix j + count) = rw (=ᵇ-refl j) at (h j) in
      let rest : (q : Text) → Fits ix q (HashMap.get m q) = λ q. elim (Bool-cases (j =ᵇ q)) [
        | inl same ↦ subst (λ x. Fits ix x (HashMap.get m x)) ((=ᵇ_iff j q).0 same) (rw d.0 tt)
        | inr other ↦ rw other at (h q)
      ] in
      rw ((over-Fits ix j count cap).1 head) (Fits-none_full ix m d.1 rest)

  is_closing-IsOpen :
      (ix : Indexes) (queue : Text) (now : ℤ)
      → is_closing ix queue now ≡ false ↔ IsOpen (HashMap.get ix.closing queue) now
  unfolding is_closing
  is_closing-IsOpen ix queue now = go (HashMap.get ix.closing queue)
    where
      go :
          (found : Option ℤ)
          → (elim found [ none ↦ false | some deadline ↦ ltb_ℤ now deadline ]) ≡ false
            ↔ IsOpen found now
      go none = (λ h. tt, λ h. refl)
      go (some deadline) = ground arith

  pub none_closing-AllOpen :
      (ix : Indexes) (now : ℤ) (index : ℕ) (ps : List PreparedJob)
      → is_empty (closing_jobs ix now index ps) ≡ true ↔ AllOpen ix now ps
  unfolding closing_jobs is_empty
  none_closing-AllOpen ix now index [] = (λ h. tt, λ h. refl)
  none_closing-AllOpen ix now index (p ∷ ps) = elim (Bool-cases (is_closing ix p.req.queue now)) [
    | inl e ↦ rw e (λ h. cc, λ h. cc (e, (is_closing-IsOpen ix p.req.queue now).1 h.0))
    | inr e ↦
        let ih = none_closing-AllOpen ix now (suc index) ps in
        rw e (λ h. ((is_closing-IsOpen ix p.req.queue now).0 e, ih.0 h), λ h. ih.1 h.1)
  ]

  -- The caps hold for every queue just if the test of the code finds none that is full.
  pub none_full-IsWithin :
      (ix : Indexes) (ps : List PreparedJob)
      → is_empty (full_queues ix (wanted ps []) []) ≡ true
        ↔ ((q : Text) → IsWithin (cap_for q ps) (live_depth ix q + jobs_for q ps))
  unfolding HashMap.get
  none_full-IsWithin ix ps = (
    λ h q.
        (tally-Fits ix q ps).0
          (subst (Fits ix q) (get-wanted ps [] q) (none_full-Fits ix (wanted ps []) q h)),
    λ h.
        Fits-none_full ix (wanted ps []) (wanted-IsMap ps [] tt)
          λ q. subst (Fits ix q) (sym (get-wanted ps [] q)) ((tally-Fits ix q ps).1 (h q)),
  )
