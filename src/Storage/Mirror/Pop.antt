-- ===== src/Storage/Mirror/Pop.antt =====
-- Popping an index before its row is removed. Between the two steps the row is there and the index
-- entry is not; `IsPopped sp k` says that removing the row makes them alike again.
use sepp.Prelude.Atomic.{is_ok}
use sepp.Index.{TimerIndex, pop_front, pop_due}
use sepp.Prelude.{ℕ}
use sepp.Prelude.Int.{ℤ}
use sepp.Storage.{Timer, pop_ready, pop_timer, timer, with_timer}
use sepp.Std.Bytes.{Text}
use sepp.Std.BTreeMap.{remove-IsSorted}
use sepp.Index.Ready.{pop_front-IsReady}
use sepp.Index.Serve.{Serves, pop_front-Serves, DueCases, pop_due-cases}
use sepp.Storage.Mirror.{TimerMirror, timer_space}
use sepp.Prelude.{true, ◌≡◌, refl, false, Option, none, some, String}
use sepp.Prelude.Result.{Result, ok, err, Exec, ◌>>=◌, ◌>>◌, proceed}
use sepp.Prelude.Maintains.{Maintains, Maintains-proceed, is_fatal, is_internal}
use sepp.Std.Bytes.{Bytes}
use sepp.Std.BTreeMap
use sepp.Std.BTreeMap.{remove-IsSorted}
use sepp.Fjall.{Fjall}
use sepp.Index.{ReadyIndex}
use sepp.Index.Ready.{IsReady}
use sepp.Storage.{State, Space, on_space, fetched, tx_get, tx_remove}
use sepp.Storage.Mirror.{Mirrors, ReadyMirror, HasKeys-remove}

module _ ⦃db : Fjall⦄ where
  abbrev pub IsPopped : Space → Bytes → State → Type 0
  IsPopped sp k s = Mirrors (record s { tx = on_space s.tx sp (λ ks. db.remove ks k) })

  -- An action that leads from one condition to another, unless it fails for good.
  pub record Leads {A : Type 0} (P Q : State → Type 0) (m : Exec State A) : Type 0 where
    pub at : (s : State) → P s → is_fatal (m s).0 ≡ false → Q (m s).1

module _ {S A : Type 0} where
  -- An action that keeps a condition, and that only fails for good.
  pub record Passes (P : S → Type 0) (m : Exec S A) : Type 0 where
    pub at : (s : S) → P s → is_fatal (m s).0 ≡ false → is_ok (m s).0 ≡ true × P (m s).1

module _ ⦃db : Fjall⦄ {B : Type 0} where
  got :
      (sp : Space) (k : Bytes) (f : Option Bytes → Exec State B) (P Q : State → Type 0)
      (e : Option String) (v : Option Bytes) (s : State)
      → P s
      → ((v : Option Bytes) → Leads P Q (f v))
      → is_fatal (proceed (fetched e v s).0 f (fetched e v s).1).0 ≡ false
      → Q (proceed (fetched e v s).0 f (fetched e v s).1).1
  unfolding fetched is_internal
  got sp k f P Q none v s p h g = (h v).at s p g
  got sp k f P Q (some e) v s p h g = cc

  passed :
      (P : State → Type 0) (f : Option Bytes → Exec State B) (e : Option String) (v : Option Bytes)
      (s : State)
      → P s
      → ((v : Option Bytes) → Passes P (f v))
      → is_fatal (proceed (fetched e v s).0 f (fetched e v s).1).0 ≡ false
      → is_ok (proceed (fetched e v s).0 f (fetched e v s).1).0 ≡ true
        × P (proceed (fetched e v s).0 f (fetched e v s).1).1
  unfolding fetched is_internal
  passed P f none v s p h g = (h v).at s p g
  passed P f (some e) v s p h g = cc

  pub Passes-get :
      (P : State → Type 0) (sp : Space) (k : Bytes) (f : Option Bytes → Exec State B)
      → ((v : Option Bytes) → Passes P (f v))
      → Passes P (tx_get sp k >>= f)
  unfolding tx_get ◌>>=◌
  Passes-get P sp k f h = record { at = λ s p g. passed P f _ _ s p h g }

  -- A failed read is fatal.
  pub Leads-get :
      (P Q : State → Type 0) (sp : Space) (k : Bytes) (f : Option Bytes → Exec State B)
      → ((v : Option Bytes) → Leads P Q (f v))
      → Leads P Q (tx_get sp k >>= f)
  unfolding tx_get ◌>>=◌
  Leads-get P Q sp k f h = record { at = λ s p g. got sp k f P Q _ _ s p h g }

  pub Leads-remove :
      (sp : Space) (k : Bytes) (rest : Exec State B)
      → Maintains Mirrors rest
      → Leads (IsPopped sp k) Mirrors (tx_remove sp k >> rest)
  unfolding tx_remove ◌>>=◌
  Leads-remove sp k rest h = record { at = λ s p g. h.at _ p g }

module _ ⦃db : Fjall⦄ {A B : Type 0} where
  pub Leads-after :
      (P Q : State → Type 0) (m : Exec State A) (rest : Exec State B)
      → Passes P m
      → Leads P Q rest
      → Leads P Q (m >> rest)
  unfolding ◌>>=◌
  Leads-after P Q m rest km h = record { at = λ s p g. next (m s).0 (m s).1 (km.at s p) g }
    where
      next :
          (r : Result A) (t : State)
          → (is_fatal r ≡ false → is_ok r ≡ true × P t)
          → is_fatal (proceed r (λ _. rest) t).0 ≡ false
          → Q (proceed r (λ _. rest) t).1
      next (ok a) t p g = h.at t (p refl).1 g
      next (err e) t p g = absurd (cc (p g).0)

  pub Leads-bind :
      (P Q : State → Type 0) (m : Exec State A) (f : A → Exec State B)
      → Leads P Q m
      → ((a : A) → Maintains Q (f a))
      → Leads P Q (m >>= f)
  unfolding ◌>>=◌
  Leads-bind P Q m f h kf = record {
    at = λ s p g. Maintains-proceed (m s).0 f (m s).1 (h.at s p) kf g;
  }

module _ ⦃db : Fjall⦄ where
  ready_popped :
      (ks : db.Keyspace) (ix ix' : ReadyIndex) (k : Bytes)
      → ReadyMirror ks ix
      → IsReady ix'
      → ix'.keys ≡ BTreeMap.remove ix.keys k
      → ReadyMirror (db.remove ks k) ix'
  ready_popped ks ix ix' k h v e = record {
    counted = v;
    keys = rw e (HasKeys-remove ks ix.keys k h.keys);
  }

  timer_popped :
      (ks : db.Keyspace) (ix ix' : TimerIndex) (k : Bytes)
      → TimerMirror ks ix
      → ix'.keys ≡ BTreeMap.remove ix.keys k
      → TimerMirror (db.remove ks k) ix'
  timer_popped ks ix ix' k h e = record {
    sorted = rw e (remove-IsSorted ix.keys k h.sorted);
    keys = rw e (HasKeys-remove ks ix.keys k h.keys);
  }

  abbrev Popped : Timer → State → Option (Bytes × Text) × TimerIndex → Type 0
  Popped t s r = DueCases (timer s.indexes t) r

module _ ⦃db : Fjall⦄ {B : Type 0} where
  popped_ready :
      (s : State) (r : Option (Bytes × ℕ) × ReadyIndex) (p : Bytes)
      (f : Option (Bytes × ℕ) → Exec State B)
      → Mirrors s
      → Serves s.indexes.ready p r
      → IsReady r.1
      → Maintains Mirrors (f none)
      → ((k : Bytes) (a : ℕ) → Leads (IsPopped Space.ready k) Mirrors (f (some (k, a))))
      → is_fatal (f r.0 (record s { indexes = record s.indexes { ready = r.1 } })).0 ≡ false
      → Mirrors (f r.0 (record s { indexes = record s.indexes { ready = r.1 } })).1
  popped_ready s (none, ix') p f m v w hn hs g = hn.at _ (rw v.0 m.0, m.1, m.2, m.3, m.4, m.5) g
  popped_ready s (some (k, a), ix') p f m v w hn hs g =
      (hs k a).at _ (ready_popped _ s.indexes.ready ix' k m.0 w v.2, m.1, m.2, m.3, m.4, m.5) g

  pub pop_ready-Mirrors :
      (p : Bytes) (f : Option (Bytes × ℕ) → Exec State B)
      → Maintains Mirrors (f none)
      → ((k : Bytes) (a : ℕ) → Leads (IsPopped Space.ready k) Mirrors (f (some (k, a))))
      → Maintains Mirrors (pop_ready p >>= f)
  unfolding pop_ready ◌>>=◌
  pop_ready-Mirrors p f hn hs = record {
    at = λ s m g.
        popped_ready s (pop_front s.indexes.ready p) p f m
          (pop_front-Serves s.indexes.ready p m.0.counted)
          (pop_front-IsReady s.indexes.ready p m.0.counted) hn hs g;
  }

  Popped-timer :
      (t : Timer) (s : State) (r : Option (Bytes × Text) × TimerIndex)
      (f : Option (Bytes × Text) → Exec State B)
      → Mirrors s
      → Popped t s r
      → Maintains Mirrors (f none)
      → ((k : Bytes) (q : Text) → Leads (IsPopped (timer_space t) k) Mirrors (f (some (k, q))))
      → is_fatal (f r.0 (record s { indexes = with_timer s.indexes t r.1 })).0 ≡ false
      → Mirrors (f r.0 (record s { indexes = with_timer s.indexes t r.1 })).1
  Popped-timer Timer.scheduled s (none, ix') f m v hn hs g =
      hn.at _ (m.0, rw v m.1, m.2, m.3, m.4, m.5) g
  Popped-timer Timer.leases s (none, ix') f m v hn hs g =
      hn.at _ (m.0, m.1, rw v m.2, m.3, m.4, m.5) g
  Popped-timer Timer.dedup_timers s (none, ix') f m v hn hs g =
      hn.at _ (m.0, m.1, m.2, rw v m.3, m.4, m.5) g
  Popped-timer Timer.dead_letter s (none, ix') f m v hn hs g =
      hn.at _ (m.0, m.1, m.2, m.3, rw v m.4, m.5) g
  Popped-timer Timer.scheduled s (some (k, q), ix') f m v hn hs g =
      (hs k q).at _ (m.0, timer_popped _ s.indexes.scheduled ix' k m.1 v.1, m.2, m.3, m.4, m.5) g
  Popped-timer Timer.leases s (some (k, q), ix') f m v hn hs g =
      (hs k q).at _ (m.0, m.1, timer_popped _ s.indexes.leases ix' k m.2 v.1, m.3, m.4, m.5) g
  Popped-timer Timer.dedup_timers s (some (k, q), ix') f m v hn hs g =
      (hs k q).at _ (m.0, m.1, m.2, timer_popped _ s.indexes.dedup_timers ix' k m.3 v.1, m.4, m.5) g
  Popped-timer Timer.dead_letter s (some (k, q), ix') f m v hn hs g =
      (hs k q).at _ (m.0, m.1, m.2, m.3, timer_popped _ s.indexes.dead_letter ix' k m.4 v.1, m.5) g

  pub pop_timer-Mirrors :
      (t : Timer) (now : ℤ) (f : Option (Bytes × Text) → Exec State B)
      → Maintains Mirrors (f none)
      → ((k : Bytes) (q : Text) → Leads (IsPopped (timer_space t) k) Mirrors (f (some (k, q))))
      → Maintains Mirrors (pop_timer t now >>= f)
  unfolding pop_timer ◌>>=◌
  pop_timer-Mirrors t now f hn hs = record {
    at = λ s m g.
        Popped-timer t s (pop_due (timer s.indexes t) now) f m
          (pop_due-cases (timer s.indexes t) now) hn hs g;
  }
