-- ===== src/Pep/Process/Awaiting.antt =====
-- The polling loop against the clock: which round ends it.
use native.Mathlib.Nat.{div-add-mod, mod-lt, mul-suc}
use confidential_agent.Common.{
  ℕ, zero, suc, ◌+◌, ◌*◌, ◌/◌, ◌≤◌, ◌<◌, String, Option, ◌≡◌, refl, sym, subst, ap, ◌∙◌, arith, leb,
  ◌⊎◌, inl, inr, Bool-cases,
}
use confidential_agent.Pep.Host.{Poll, exited, broken, running}
use confidential_agent.Pep.Process.{
  judge, Awaited, finished, poll_failed, overdue, await_exit, rounds,
}

-- What one poll decides, if it decides anything.
pub data Decides (timeout_ms : ℕ) : Poll → Awaited → Type 0 where
  by_exit : {code : Option ℕ} → Decides timeout_ms (exited code) (finished code)
  by_error : {message : String} → Decides timeout_ms (broken message) (poll_failed message)
  by_time :
      {elapsed_ms : ℕ} → timeout_ms ≤ elapsed_ms → Decides timeout_ms (running elapsed_ms) overdue

-- The process was running and in time.
pub data InTime (timeout_ms : ℕ) : Poll → Type 0 where
  in_time : {elapsed_ms : ℕ} → elapsed_ms < timeout_ms → InTime timeout_ms (running elapsed_ms)

-- The loop ends in its round `n` with a result.
pub record EndsAt (timeout_ms : ℕ) (polls : ℕ → Poll) (round n : ℕ) (result : Awaited)
    : Type 0 where
  pub reached : round ≤ n
  pub before : (i : ℕ) → round ≤ i → i < n → InTime timeout_ms (polls i)
  pub decided : Decides timeout_ms (polls n) result

-- `thread::sleep` sleeps at least as long as it is told.
abbrev pub Sleeps : ℕ → (ℕ → Poll) → Type 0
Sleeps interval_ms polls =
    (i elapsed_ms : ℕ) → polls i ≡ running elapsed_ms → interval_ms * i ≤ elapsed_ms

Poll-cases :
    (timeout_ms : ℕ) (poll : Poll)
    → ((result : Awaited) × Decides timeout_ms poll result
        × ((later : Awaited) → judge timeout_ms poll later ≡ result))
      ⊎ ((elapsed_ms : ℕ) × (poll ≡ running elapsed_ms) × (elapsed_ms < timeout_ms))
Poll-cases timeout_ms (exited code) = inl (finished code, by_exit, λ later. refl)
Poll-cases timeout_ms (broken message) = inl (poll_failed message, by_error, λ later. refl)
Poll-cases timeout_ms (running elapsed_ms) = elim (Bool-cases (leb timeout_ms elapsed_ms)) [
  | inl late ↦ inl (overdue, by_time (ground arith), λ later. rw late refl)
  | inr early ↦ inr (elapsed_ms, refl, ground arith)
]

judge-in_time :
    (timeout_ms elapsed_ms : ℕ) (later : Awaited)
    → elapsed_ms < timeout_ms
    → judge timeout_ms (running elapsed_ms) later ≡ later
judge-in_time timeout_ms elapsed_ms later early = ground arith

-- One more round before the round that ends the loop.
later-EndsAt :
    (timeout_ms : ℕ) (polls : ℕ → Poll) (round n : ℕ) (result : Awaited)
    → InTime timeout_ms (polls round)
    → EndsAt timeout_ms polls (suc round) n result
    → EndsAt timeout_ms polls round n result
later-EndsAt timeout_ms polls round n result now e = record {
  reached = omega (arith, e.reached);
  before = λ i from to. elim (nat-cases round i from) [
    | inl same ↦ subst (λ k. InTime timeout_ms (polls k)) same now
    | inr above ↦ e.before i above to
  ];
  decided = e.decided;
}
  where
    nat-cases : (a b : ℕ) → a ≤ b → (a ≡ b) ⊎ (suc a ≤ b)
    nat-cases a b h = elim (Bool-cases (leb (suc a) b)) [
      | inl t ↦ inr (ground arith)
      | inr t ↦ inl (ground arith)
    ]

-- A round whose poll decides.
decided-EndsAt :
    (fuel timeout_ms round : ℕ) (polls : ℕ → Poll) (result : Awaited)
    → Decides timeout_ms (polls round) result
    → ((later : Awaited) → judge timeout_ms (polls round) later ≡ result)
    → EndsAt timeout_ms polls round round (await_exit (suc fuel) timeout_ms round polls)
unfolding await_exit
decided-EndsAt fuel timeout_ms round polls result d same = record {
  reached = omega arith;
  before = λ i from to. absurd (omega arith);
  decided = rw (same (await_exit fuel timeout_ms (suc round) polls)) d;
}

await_exit-running :
    (fuel timeout_ms round elapsed_ms : ℕ) (polls : ℕ → Poll)
    → polls round ≡ running elapsed_ms
    → elapsed_ms < timeout_ms
    → await_exit (suc fuel) timeout_ms round polls ≡ await_exit fuel timeout_ms (suc round) polls
unfolding await_exit
await_exit-running fuel timeout_ms round elapsed_ms polls e early =
    ap (λ poll. judge timeout_ms poll (await_exit fuel timeout_ms (suc round) polls)) e
    ∙ judge-in_time timeout_ms elapsed_ms (await_exit fuel timeout_ms (suc round) polls) early

round_zero : (round : ℕ) → round + 0 ≡ round
round_zero round = omega arith

round_suc : (round fuel : ℕ) → round + suc fuel ≡ suc round + fuel
round_suc round fuel = omega arith

await_exit-EndsAt :
    (interval_ms timeout_ms : ℕ) (polls : ℕ → Poll)
    → Sleeps interval_ms polls
    → (fuel round : ℕ) → timeout_ms ≤ interval_ms * (round + fuel)
    → (n : ℕ) × EndsAt timeout_ms polls round n (await_exit (suc fuel) timeout_ms round polls)
await_exit-EndsAt interval_ms timeout_ms polls sleeps zero round h =
    elim (Poll-cases timeout_ms (polls round)) [
      | inl (result, d, same) ↦ (round, decided-EndsAt zero timeout_ms round polls result d same)
      | inr (elapsed_ms, e, early) ↦
          let enough : timeout_ms ≤ interval_ms * round =
            subst (λ k. timeout_ms ≤ interval_ms * k) (round_zero round) h in
          absurd (omega (arith, sleeps round elapsed_ms e, enough))
    ]
await_exit-EndsAt interval_ms timeout_ms polls sleeps (suc fuel) round h =
    elim (Poll-cases timeout_ms (polls round)) [
      | inl (result, d, same) ↦
          (round, decided-EndsAt (suc fuel) timeout_ms round polls result d same)
      | inr (elapsed_ms, e, early) ↦
          let enough : timeout_ms ≤ interval_ms * (suc round + fuel) =
            subst (λ k. timeout_ms ≤ interval_ms * k) (round_suc round fuel) h in
          let (n, rest) =
            await_exit-EndsAt interval_ms timeout_ms polls sleeps fuel (suc round) enough in
          (
            n,
            later-EndsAt timeout_ms polls round n
                (await_exit (suc (suc fuel)) timeout_ms round polls)
                (subst (InTime timeout_ms) (sym e) (in_time early))
                (subst (EndsAt timeout_ms polls (suc round) n)
                  (sym (await_exit-running (suc fuel) timeout_ms round elapsed_ms polls e early))
                  rest),
          )
    ]

-- The polling loop always ends: with the fuel of one round per interval there is a round whose poll
-- decides the result, and the process was running and within its time in every round before it, if
-- each sleep lasts at least the interval.
pub await_exit_lem :
    (interval_ms timeout_ms : ℕ) (polls : ℕ → Poll)
    → 0 < interval_ms
    → Sleeps interval_ms polls
    → (n : ℕ) × EndsAt timeout_ms polls 0 n
        (await_exit (rounds timeout_ms interval_ms) timeout_ms 0 polls)
await_exit_lem interval_ms timeout_ms polls positive sleeps =
    await_exit-EndsAt interval_ms timeout_ms polls sleeps (suc (timeout_ms / interval_ms)) 0 (
      omega (
        arith,
        div-add-mod timeout_ms interval_ms,
        mod-lt timeout_ms positive,
        mul-suc interval_ms (timeout_ms / interval_ms),
      ))
