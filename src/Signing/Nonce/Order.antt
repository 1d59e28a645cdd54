-- ===== src/Signing/Nonce/Order.antt =====
-- The nonces of all threads together.
use hyperliquid_sdk_cpp.Common.{
  ℕ, suc, ◌+◌, ◌^◌, ◌≤◌, ◌<◌, List, [], ◌∷◌, ◌≡◌, arith, All, length, Bool-cases, inl, inr, ◌==◌,
}
use hyperliquid_sdk_cpp.Signing.Nonce.{
  next_value, Local, idle, timed, loaded, Issue, Shared, update, Step, read_clock, load, retry,
  exchange, Run, init, after,
}

-- Each nonce is above all that were returned before it.
abbrev pub IsDescending : List Issue → Type 0
IsDescending [] = Unit
IsDescending (i ∷ is) = All (λ j. j.nonce < i.nonce) is × IsDescending is

abbrev pub IsTimely : List Issue → Type 0
IsTimely = All (λ i. i.now ≤ i.nonce)

abbrev ClockBelow : ℕ → Local → Type 0
ClockBelow latest idle = Unit
ClockBelow latest (timed now) = now ≤ latest
ClockBelow latest (loaded now prev) = now ≤ latest

record IsOrdered (latest last : ℕ) (issued : List Issue) : Type 0 where
  descending : IsDescending issued
  timely : IsTimely issued
  covered : All (λ i. i.nonce ≤ last) issued
  bounded : last ≤ latest + length issued

record Inv (latest : ℕ) (s : Shared) : Type 0 where
  clocks : (t : ℕ) → ClockBelow latest (s.local t)
  ordered : latest + length s.issued < 2 ^ 64 → IsOrdered latest s.last_nonce s.issued

All-raise :
    (a b : ℕ) (is : List Issue) → a ≤ b → All (λ i. i.nonce ≤ a) is → All (λ i. i.nonce ≤ b) is
All-raise a b [] h k = tt
All-raise a b (i ∷ is) h (p, k) = (omega arith, All-raise a b is h k)

All-above :
    (a b : ℕ) (is : List Issue) → a < b → All (λ i. i.nonce ≤ a) is → All (λ i. i.nonce < b) is
All-above a b [] h k = tt
All-above a b (i ∷ is) h (p, k) = (omega arith, All-above a b is h k)

update_below :
    (latest : ℕ) (f : ℕ → Local) (t : ℕ) (l : Local)
    → ClockBelow latest l
    → ((u : ℕ) → ClockBelow latest (f u))
    → (u : ℕ) → ClockBelow latest (update f t l u)
unfolding update
update_below latest f t l h k u = elim (Bool-cases (t == u)) [ inl e ↦ rw e h | inr e ↦ rw e (k u) ]

next_value_lem :
    (latest now prev n : ℕ)
    → now ≤ latest
    → prev ≤ latest + n
    → latest + suc n < 2 ^ 64
    → (prev < next_value now prev)
      × (now ≤ next_value now prev)
      × (next_value now prev ≤ latest + suc n)
unfolding next_value
next_value_lem latest now prev n h k b = ground arith

local_below :
    (latest : ℕ) (f : ℕ → Local) (t : ℕ) {l : Local}
    → f t ≡ l
    → ((u : ℕ) → ClockBelow latest (f u))
    → ClockBelow latest l
local_below latest f t e k = rw (← e) (k t)

exchange-IsOrdered :
    (latest now prev last t : ℕ) (issued : List Issue)
    → prev ≡ last
    → now ≤ latest
    → IsOrdered latest last issued
    → latest + suc (length issued) < 2 ^ 64
    → IsOrdered latest
        (next_value now prev)
        (record { thread = t; now = now; nonce = next_value now prev } ∷ issued)
exchange-IsOrdered latest now prev last t issued q h o b =
    let (above, timely, bounded) =
      next_value_lem latest now prev (length issued) h (omega (arith, o.bounded)) b in
    record {
      descending =
          (All-above last (next_value now prev) issued (omega arith) o.covered, o.descending);
      timely = (timely, o.timely);
      covered = (omega arith, All-raise last (next_value now prev) issued (omega arith) o.covered);
      bounded = bounded;
    }

Step-Inv : {latest : ℕ} {s s' : Shared} → Step latest s s' → Inv latest s → Inv latest s'
Step-Inv {latest} {s} (read_clock t now h e r) v =
    rw r (record {
      clocks = update_below latest s.local t (timed now) h v.clocks;
      ordered = v.ordered;
    })
Step-Inv {latest} {s} (load t now e r) v = rw r (record {
  clocks =
      update_below latest s.local t (loaded now s.last_nonce)
        (local_below latest s.local t e v.clocks) v.clocks;
  ordered = v.ordered;
})
Step-Inv {latest} {s} (retry t now prev e r) v = rw r (record {
  clocks =
      update_below latest s.local t (loaded now s.last_nonce)
        (local_below latest s.local t e v.clocks) v.clocks;
  ordered = v.ordered;
})
Step-Inv {latest} {s} (exchange t now prev e q r) v = rw r (record {
  clocks = update_below latest s.local t idle tt v.clocks;
  ordered = λ b.
      exchange-IsOrdered latest now prev s.last_nonce t s.issued q
        (local_below latest s.local t e v.clocks) (v.ordered (omega arith)) b;
})

Run-Inv : {latest : ℕ} {s : Shared} → Run latest s → Inv latest s
Run-Inv init = record {
  clocks = λ t. tt;
  ordered = λ b. record { descending = tt; timely = tt; covered = tt; bounded = omega arith };
}
Run-Inv (after r st) = Step-Inv st (Run-Inv r)

-- However the threads' steps interleave and whatever the clock shows up to `latest`, each nonce is
-- above every nonce returned before it and not below the time that its own call read, as long as
-- the calls are too few to pass 2^64.
pub nonces_ordered :
    {latest : ℕ} {s : Shared}
    → Run latest s
    → latest + length s.issued < 2 ^ 64
    → IsDescending s.issued × IsTimely s.issued
nonces_ordered r b = let o = (Run-Inv r).ordered b in (o.descending, o.timely)
