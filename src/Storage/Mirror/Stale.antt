-- ===== src/Storage/Mirror/Stale.antt =====
-- A stale key: an index entry whose row a read did not find. Under the mirror there is none, so
-- dropping the entry changes nothing.
use sepp.Prelude.{◌≡◌, refl, false, Option, none, some, String, is_some}
use sepp.Prelude.Result.{Exec, ◌>>=◌, ◌>>◌, proceed}
use sepp.Prelude.Maintains.{Maintains, is_fatal, is_internal}
use sepp.Std.Bytes.{Bytes}
use sepp.Std.BTreeMap
use sepp.Fjall.{Fjall}
use sepp.Index.{ReadyIndex, TimerIndex, ready_remove, timer_remove}
use sepp.Storage.{State, Space, Timer, space, fetched, tx_get, unindex_ready, unindex_timer}
use sepp.Storage.Mirror.{Mirrors, ReadyMirror, TimerMirror, timer_space}
use sepp.Storage.Mirror.Pop.{Leads}

none_of : {A : Type 0} (o : Option A) → is_some o ≡ false → o ≡ none
none_of none h = refl
none_of (some a) h = absurd (cc h)

module _ ⦃db : Fjall⦄ where
  abbrev pub IsMissing : Space → Bytes → State → Type 0
  IsMissing sp k s = Mirrors s × (db.get (space s.tx sp) k ≡ none)

  ready_stale :
      (ks : db.Keyspace) (ix : ReadyIndex) (k : Bytes)
      → ReadyMirror ks ix
      → db.get ks k ≡ none
      → ReadyMirror ks (ready_remove ix k).1
  unfolding ready_remove
  ready_stale ks ix k h e =
      rw (none_of (BTreeMap.get ix.keys k) (rw e at (h.keys k)), ready_remove) h

  timer_stale :
      (ks : db.Keyspace) (ix : TimerIndex) (k : Bytes)
      → TimerMirror ks ix
      → db.get ks k ≡ none
      → TimerMirror ks (timer_remove ix k)
  unfolding timer_remove
  timer_stale ks ix k h e =
      rw (none_of (BTreeMap.get ix.keys k) (rw e at (h.keys k)), timer_remove) h

module _ ⦃db : Fjall⦄ {B : Type 0} where
  read :
      (sp : Space) (k : Bytes) (f : Option Bytes → Exec State B) (e : Option String)
      (v : Option Bytes) (s : State)
      → Mirrors s
      → db.get (space s.tx sp) k ≡ v
      → Leads (IsMissing sp k) Mirrors (f none)
      → ((v : Bytes) → Maintains Mirrors (f (some v)))
      → is_fatal (proceed (fetched e v s).0 f (fetched e v s).1).0 ≡ false
      → Mirrors (proceed (fetched e v s).0 f (fetched e v s).1).1
  unfolding fetched is_internal
  read sp k f none none s m w hn hs g = hn.at s (m, w) g
  read sp k f none (some v) s m w hn hs g = (hs v).at s m g
  read sp k f (some e) v s m w hn hs g = cc

  -- After a read, the rest may use that a row that was not found is missing.
  pub tx_get-cases :
      (sp : Space) (k : Bytes) (f : Option Bytes → Exec State B)
      → Leads (IsMissing sp k) Mirrors (f none)
      → ((v : Bytes) → Maintains Mirrors (f (some v)))
      → Maintains Mirrors (tx_get sp k >>= f)
  unfolding tx_get ◌>>=◌
  tx_get-cases sp k f hn hs = record { at = λ s m g. read sp k f _ _ s m refl hn hs g }

  pub drop_stale_ready :
      (k : Bytes) (rest : Exec State B)
      → Maintains Mirrors rest
      → Leads (IsMissing Space.ready k) Mirrors (unindex_ready k >> rest)
  unfolding unindex_ready ◌>>=◌
  drop_stale_ready k rest h = record {
    at = λ s m g.
        let w = m.0 in h.at _ (ready_stale _ s.indexes.ready k w.0 m.1, w.1, w.2, w.3, w.4, w.5) g;
  }

  pub drop_stale_timer :
      (t : Timer) (k : Bytes) (rest : Exec State B)
      → Maintains Mirrors rest
      → Leads (IsMissing (timer_space t) k) Mirrors (unindex_timer t k >> rest)
  unfolding unindex_timer ◌>>=◌
  drop_stale_timer Timer.scheduled k rest h = record {
    at = λ s m g.
        let w = m.0 in
        h.at _ (w.0, timer_stale _ s.indexes.scheduled k w.1 m.1, w.2, w.3, w.4, w.5) g;
  }
  drop_stale_timer Timer.leases k rest h = record {
    at = λ s m g.
        let w = m.0 in h.at _ (w.0, w.1, timer_stale _ s.indexes.leases k w.2 m.1, w.3, w.4, w.5) g;
  }
  drop_stale_timer Timer.dedup_timers k rest h = record {
    at = λ s m g.
        let w = m.0 in
        h.at _ (w.0, w.1, w.2, timer_stale _ s.indexes.dedup_timers k w.3 m.1, w.4, w.5) g;
  }
  drop_stale_timer Timer.dead_letter k rest h = record {
    at = λ s m g.
        let w = m.0 in
        h.at _ (w.0, w.1, w.2, w.3, timer_stale _ s.indexes.dead_letter k w.4 m.1, w.5) g;
  }
