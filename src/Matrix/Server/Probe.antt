-- ===== src/Matrix/Server/Probe.antt =====
-- The readiness probe.
use resp_bench.Prelude.{ℕ, zero, suc, ◌+◌, ◌≡◌, ◌⊎◌, Bool, true, false, List, [], ◌∷◌, String}
use resp_bench.Prelude.Results.{Result, ok, err}
use resp_bench.Matrix.Server.{Ping, ready, not_ready, broken, judge, Action, pinged, slept, Probed}

-- A pause and a PING, k times.
abbrev pub rounds : ℕ → List Action
rounds zero = []
rounds (suc k) = slept ∷ pinged ∷ rounds k

-- What the loop answers when its last PING is number `last`: the answer of that PING, a failure only
-- if there is no attempt left.
abbrev pub Answers : (ℕ → Ping) → ℕ → ℕ → Result (Bool × String) → Type 0
Answers ping last left result =
    ((reply : String) × (judge (ping last) ≡ ready reply) × (result ≡ ok (true, reply)))
    ⊎ ((e : _) × (judge (ping last) ≡ broken e) × (result ≡ err e))
    ⊎ ((detail : String) × (judge (ping last) ≡ not_ready detail)
        × (left ≡ 0)
        × (result ≡ ok (false, detail)))

-- From attempt number a on, with n attempts left after it.
abbrev Probes : (ℕ → Ping) → ℕ → ℕ → Probed → Type 0
Probes ping a n probed =
    (k left : ℕ) × (k + left ≡ n)
    × (probed.1 ≡ pinged ∷ rounds k)
    × Answers ping (a + k) left probed.0
