-- ===== src/Limiter/Rate.antt =====
-- How fast the limiter lets requests through.
use resp_bench.Prelude.{
  ap, ◌∙◌, le→leb, lt→leb_false, ℕ, zero, suc, ◌+◌, ◌*◌, ◌≤◌, ◌<◌, ◌≡◌, refl, leb, none, some, List,
  [], ◌∷◌, get_elem?, replicate, arith, Bool-cases, inl, inr, Option-cases,
}
use resp_bench.Limiter.{RateLimiter, Grant, new, acquire, advanced, wait, nanos_per_second}

-- The times at which `n` calls of `acquire`, one after the other, are let through.
unfoldable pub grants : ℕ → RateLimiter → List ℕ → List ℕ
grants zero l readings = []
grants (suc n) l readings = elim (acquire l readings) [
  | none ↦ []
  | some g ↦ g.at ∷ grants n g.limiter g.later
]

-- A grant is not early, and moves the limiter by one interval.
record IsGrant (l : RateLimiter) (g : Grant) : Type 0 where
  due : l.next_allowed_nanos ≤ g.at
  moved : g.limiter ≡ advanced l

acquire-IsGrant :
    (l : RateLimiter) (readings : List ℕ) (g : Grant) → acquire l readings ≡ some g → IsGrant l g
unfolding acquire
acquire-IsGrant l [] g e = absurd (cc e)
acquire-IsGrant l (now ∷ later) g e = elim (Bool-cases (leb l.next_allowed_nanos now)) [
  | inl pass ↦
      let q : some (record { at = now; limiter = advanced l; later = later }) ≡ some g =
        rw pass at e in
      ground arith
  | inr early ↦ acquire-IsGrant l later g (rw early at e)
]

-- The first grant, and the rest from the limiter that it leaves.
grants-cons :
    (n : ℕ) (l : RateLimiter) (readings : List ℕ) (g : Grant)
    → acquire l readings ≡ some g
    → grants (suc n) l readings ≡ g.at ∷ grants n g.limiter g.later
unfolding grants
grants-cons n l readings g e = rw (e, grants)

grants-none :
    (n : ℕ) (l : RateLimiter) (readings : List ℕ)
    → acquire l readings ≡ none
    → grants (suc n) l readings ≡ []
unfolding grants
grants-none n l readings e = rw (e, grants)

acquire-passes :
    (l : RateLimiter) (now : ℕ) (later : List ℕ)
    → l.next_allowed_nanos ≤ now
    → acquire l (now ∷ later) ≡ some (record { at = now; limiter = advanced l; later = later })
unfolding acquire
acquire-passes l now later h = rw (le→leb l.next_allowed_nanos now h)

-- The k-th request that is let through, from 0, is never early: it comes at or after the k-th slot
-- of the schedule that starts at the limiter's next slot.
pub grants-due :
    (n : ℕ) (l : RateLimiter) (readings : List ℕ) (k t : ℕ)
    → get_elem? (grants n l readings) k ≡ some t
    → l.next_allowed_nanos + k * l.interval_nanos ≤ t
grants-due zero l readings k t e = absurd (unfold grants in cc e)
grants-due (suc n) l readings k t e = elim (Option-cases (acquire l readings)) [
  | inl waits ↦ absurd (cc (rw (grants-none n l readings waits) at e))
  | inr (g, passed) ↦
      let due = acquire-IsGrant l readings g passed in
      let q = rw (grants-cons n l readings g passed) at e in
      elim k
          as (λ k.
            get_elem? (g.at ∷ grants n g.limiter g.later) k ≡ some t
            → l.next_allowed_nanos + k * l.interval_nanos ≤ t) [
              | zero ↦ λ q. ground (arith, due.due)
              | suc j ↦ λ q. ground (arith, due.moved, grants-due n g.limiter g.later j t q)
            ]
        q
]

-- Where the clock is k intervals past the next slot, k + 1 requests pass at one reading: the
-- limiter catches up in a burst.
pub grants_burst :
    (k : ℕ) (l : RateLimiter) (now : ℕ)
    → l.next_allowed_nanos + k * l.interval_nanos ≤ now
    → grants (suc k) l (replicate (suc k) now) ≡ replicate (suc k) now
grants_burst zero l now h =
    grants-cons 0 l (now ∷ []) _ (acquire-passes l now [] (omega arith)) ∙ (unfold grants in refl)
grants_burst (suc k) l now h =
    grants-cons (suc k) l (replicate (suc (suc k)) now) _
      (acquire-passes l now (replicate (suc k) now) (omega arith))
    ∙ ap (λ ts. now ∷ ts) (grants_burst k (advanced l) now (omega arith))

-- A request that comes early sleeps once: if the clock has gone on by at least the time slept, the
-- next round lets it through.
pub acquire_after_wait :
    (l : RateLimiter) (now woken : ℕ) (later : List ℕ)
    → now < l.next_allowed_nanos
    → now + wait l now ≤ woken
    → acquire l (now ∷ woken ∷ later)
      ≡ some (record { at = woken; limiter = advanced l; later = later })
unfolding acquire wait
acquire_after_wait l now woken later early slept =
    rw
      (lt→leb_false l.next_allowed_nanos now early, le→leb l.next_allowed_nanos woken (omega arith))

-- The interval is the longest whole number of nanoseconds for which the rate is reached; a rate above
-- one request a nanosecond has interval 0 and is not limited.
pub interval_bounds :
    (rate now : ℕ)
    → 0 < rate
    → ((new rate now).interval_nanos * rate ≤ nanos_per_second)
      × (nanos_per_second < ((new rate now).interval_nanos + 1) * rate)
unfolding new
interval_bounds rate now p = (grind arith, grind arith)
