-- ===== src/Storage/Sweep/Tombstones.antt =====
-- The first phase of `apply_sweep` of src/storage.rs: the close tombstones past their deadline.
use sepp.Prelude.{
  ◌≡◌, refl, Bool, false, List, [], ◌∷◌, Option, none, some, if◌then◌else◌, arith, Bool-cases, inl,
  inr, not,
}
use sepp.Prelude.Int.{ℤ, ltb_ℤ}
use sepp.Prelude.Result.{Exec, modify, ◌>>=◌, ◌>>◌}
use sepp.Prelude.Maintains.{Maintains}
use sepp.Std.Bytes.{Text, =ᵇ_iff}
use sepp.Std.HashMap
use sepp.Std.HashMap.{HashMap, IsMap, bytes_eq}
use sepp.Proto.{Prost}
use sepp.Fjall.{Fjall}
use sepp.Keys.{closing_key}
use sepp.Storage.{State, tx_remove, note}
use sepp.Storage.Mirror.{Mirrors, ClosingMirror, stored}
use sepp.Storage.Queue.Keep.{closing_key-eq}
use sepp.Storage.Sweep.{kept, lapsed, drop_tombstones, sweep_closing}

-- What a sweep leaves of a queue's deadline, and whether it drops it.
abbrev still : ℤ → Option ℤ → Option ℤ
still now none = none
still now (some d) = if ltb_ℤ now d then some d else none

abbrev is_lapsed : ℤ → Option ℤ → Bool
is_lapsed now none = false
is_lapsed now (some d) = not (ltb_ℤ now d)

pub get-kept :
    (now : ℤ) (m : HashMap Text ℤ) (q : Text)
    → IsMap m
    → HashMap.get (kept now m) q ≡ still now (HashMap.get m q)
unfolding kept HashMap.get
get-kept now [] q h = refl
get-kept now ((j, d) ∷ m) q h =
    ground (arith, get-kept now m q h.1, get-kept now m j h.1, h.0, =ᵇ_iff j q)

kept-IsMap : (now : ℤ) (m : HashMap Text ℤ) → IsMap m → IsMap (kept now m)
unfolding kept HashMap.get
kept-IsMap now [] h = tt
kept-IsMap now ((j, d) ∷ m) h = elim (Bool-cases (ltb_ℤ now d)) [
  | inl e ↦ rw e (rw (get-kept now m j h.1, h.0) refl, kept-IsMap now m h.1)
  | inr e ↦ rw e (kept-IsMap now m h.1)
]

module _ ⦃db : Fjall⦄ where
  drop_rows : db.Keyspace → List Text → db.Keyspace
  drop_rows ks [] = ks
  drop_rows ks (q ∷ qs) = drop_rows (db.remove ks (closing_key q)) qs

  get-drop_rows :
      (now : ℤ) (m : HashMap Text ℤ) (ks : db.Keyspace) (q : Text)
      → IsMap m
      → db.get (drop_rows ks (lapsed now m)) (closing_key q)
        ≡ (if is_lapsed now (HashMap.get m q) then none else db.get ks (closing_key q))
  unfolding drop_rows lapsed HashMap.get
  get-drop_rows now [] ks q h = refl
  get-drop_rows now ((j, d) ∷ m) ks q h = elim (Bool-cases (ltb_ℤ now d)) [
    | inl e ↦ rw e (rw (get-drop_rows now m ks q h.1) (ground (arith, h.0, =ᵇ_iff j q)))
    | inr e ↦ rw e (
        rw
          (
            get-drop_rows now m (db.remove ks (closing_key j)) q h.1,
            db.get-remove ks (closing_key j) (closing_key q),
            closing_key-eq j q,
          )
          (ground (arith, h.0, =ᵇ_iff j q)))
  ]

  -- The state after the phase, for the rows that it drops.
  abbrev swept_state : ℤ → List Text → State → State
  swept_state now qs s = record s {
    tx = record s.tx { meta = drop_rows s.tx.meta qs };
    indexes = record s.indexes { closing = kept now s.indexes.closing };
  }

  abbrev retain : ℤ → Exec State Unit
  retain now =
      modify λ s. record s { indexes = record s.indexes { closing = kept now s.indexes.closing } }

  swept :
      (now : ℤ) (ks : db.Keyspace) (m : HashMap Text ℤ)
      → ClosingMirror ks m
      → ClosingMirror (drop_rows ks (lapsed now m)) (kept now m)
  swept now ks m h = record {
    distinct = kept-IsMap now m h.distinct;
    rows = λ q.
        rw (get-drop_rows now m ks q h.distinct, get-kept now m q h.distinct, h.rows q)
          (same (HashMap.get m q));
  }
    where
      same : (o : Option ℤ) → (if is_lapsed now o then none else stored o) ≡ stored (still now o)
      same none = refl
      same (some d) = ground arith

module _ ⦃db : Fjall⦄ ⦃prost : Prost⦄ where
  -- The rows go one by one, and the map at the end.
  dropped :
      (now : ℤ) (qs : List Text) (s : State)
      → Mirrors (swept_state now qs s)
      → Mirrors ((drop_tombstones qs >> retain now) s).1
  unfolding drop_tombstones drop_rows ◌>>=◌ tx_remove note
  dropped now [] s m = m
  dropped now (q ∷ qs) s m = dropped now qs _ m

  pub sweep_closing-Mirrors : (now : ℤ) → Maintains Mirrors (sweep_closing now)
  unfolding sweep_closing ◌>>=◌
  sweep_closing-Mirrors now = record {
    at = λ s m _.
        dropped now (lapsed now s.indexes.closing) s
          (m.0, m.1, m.2, m.3, m.4, swept now s.tx.meta s.indexes.closing m.5);
  }
