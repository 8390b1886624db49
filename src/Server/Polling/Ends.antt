-- ===== src/Server/Polling/Ends.antt =====
-- How the long poll of the reserve handler of src/queue_server.rs ends.
use sepp.Prelude.{
  ℕ, ◌≤◌, ◌≡◌, refl, Bool, true, false, not, ◌||◌, List, [], ◌∷◌, if◌then◌else◌, length, arith, ◌∙◌,
  ap, sym,
}
use sepp.Prelude.Result.{Result, ok, err, Exec, pure, modify}
use sepp.Prelude.Yields.{Yields, Holds, Yields-pure, Yields-bind, Yields-after, Yields-ok}
use sepp.Prelude.Int.{ℤ}
use sepp.Std.Bytes.{Text}
use sepp.Proto.{Prost, Job}
use sepp.Fjall.{Fjall}
use sepp.Storage.{State}
use sepp.Storage.Reserve.Bounds.{apply_reserve-max_jobs}
use sepp.Handle.{reserve_once}
use sepp.Handle.Matched.{reserve_once-apply_reserve}
use sepp.Server.Polling.{
  Wake, armed, shutdown_changed, deadline_reached, Polled, delivered, nothing, still_waiting, Round,
  woken, poll,
}

abbrev is_armed : Wake → Bool
is_armed armed = true
is_armed shutdown_changed = false
is_armed deadline_reached = false

module _ ⦃db : Fjall⦄ ⦃prost : Prost⦄ where
  -- A round that lets the handler go: the deadline is past or the server shuts down, whether seen
  -- before the wait or as its end.
  abbrev pub lets_go : Round → Bool
  lets_go r = r.past_deadline || r.shutting_down || not (is_armed r.wake)

  abbrev pub any_lets_go : List Round → Bool
  any_lets_go [] = false
  any_lets_go (r ∷ rs) = lets_go r || any_lets_go rs

  -- The poll's answer, given whether a round has let the handler go.
  abbrev pub EndsBy : ℕ → Bool → Polled → Type 0
  EndsBy max_jobs gone (delivered jobs) = (1 ≤ length jobs) × (length jobs ≤ max_jobs)
  EndsBy max_jobs gone nothing = gone ≡ true
  EndsBy max_jobs gone still_waiting = gone ≡ false

  abbrev pub Ends : ℕ → List Round → Polled → Type 0
  Ends max_jobs rounds = EndsBy max_jobs (any_lets_go rounds)

  -- The wait after an empty reservation.
  waited :
      (max_jobs : ℕ) (past shutting : Bool) (w : Wake) (gone : Bool) (rest : Exec State Polled)
      → Yields (EndsBy max_jobs gone) rest
      → Yields
          (EndsBy max_jobs (past || shutting || not (is_armed w) || gone))
          (if past || shutting then pure nothing else woken w rest)
  waited max_jobs true shutting w gone rest y = Yields-pure _ nothing refl
  waited max_jobs false true w gone rest y = Yields-pure _ nothing refl
  waited max_jobs false false armed gone rest y = y
  waited max_jobs false false shutdown_changed gone rest y = Yields-pure _ nothing refl
  waited max_jobs false false deadline_reached gone rest y = Yields-pure _ nothing refl

  bounded :
      (queues : List Text) (lease max_jobs : ℕ) (now : ℤ)
      → Yields (λ jobs. length jobs ≤ max_jobs) (reserve_once queues lease max_jobs now)
  bounded queues lease max_jobs now = record { at = λ s. go s _ refl }
    where
      go :
          (s : State) (r : Result (List Job))
          → (reserve_once queues lease max_jobs now s).0 ≡ r
          → Holds (λ jobs. length jobs ≤ max_jobs) r
      go s (ok jobs) e =
          apply_reserve-max_jobs queues lease max_jobs now s jobs
            (ap (λ p. p.0) (sym (reserve_once-apply_reserve queues lease max_jobs now s)) ∙ e)
      go s (err x) e = tt

  poll-Yields :
      (queues : List Text) (lease max_jobs : ℕ) (rounds : List Round)
      → Yields (Ends max_jobs rounds) (poll queues lease max_jobs rounds)
  unfolding poll
  poll-Yields queues lease max_jobs [] = Yields-pure _ still_waiting refl
  poll-Yields queues lease max_jobs (r ∷ rs) = Yields-after _ (modify r.meanwhile) _ λ _.
      Yields-bind (λ jobs. length jobs ≤ max_jobs) _ _ _ (bounded queues lease max_jobs r.now)
        (elim [
          | [] ↦ λ h.
              waited max_jobs r.past_deadline r.shutting_down r.wake _ _
                (poll-Yields queues lease max_jobs rs)
          | j ∷ js ↦ λ h. Yields-pure _ (delivered (j ∷ js)) (omega arith, h)
        ])

  -- The long poll answers jobs, at least one and no more than asked for, or nothing, when a round
  -- let it go; it goes on waiting only while no round has, so that the deadline or a shutdown always
  -- ends it.
  pub poll-Ends :
      (queues : List Text) (lease max_jobs : ℕ) (rounds : List Round) (s : State) (p : Polled)
      → (poll queues lease max_jobs rounds s).0 ≡ ok p
      → Ends max_jobs rounds p
  poll-Ends queues lease max_jobs rounds s p =
      Yields-ok (Ends max_jobs rounds) _ s p (poll-Yields queues lease max_jobs rounds)
