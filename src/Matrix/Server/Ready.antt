-- ===== src/Matrix/Server/Ready.antt =====
-- What a preflight check that passes has found.
use mathlib.Core.List.{Memᴰ}
use mathlib.Core.List.Memᴰ
use resp_bench.Prelude.{ℕ, true, List, ◌≡◌, String}
use resp_bench.Prelude.Int.{ℤ}
use resp_bench.Prelude.Results.{ok}
use resp_bench.Floats.{Floats}
use resp_bench.Matrix.{Host}
use resp_bench.Matrix.Server.{Server, Ping, probe_server}
use resp_bench.Matrix.Server.Preflight.{Credentials, ping_cmd}

module _ (fl : Floats) (host : Host fl.Float) where
  -- The server has answered the PINGs that the CLI sends with these credentials.
  abbrev pub Answered :
      String → Server → ℤ → (List String → ℕ → Ping) → Credentials fl.Float → Type 0
  Answered cli server attempts pings c =
      (reply : String) × ((probe_server (pings (ping_cmd fl host cli server c)) attempts).0
        ≡ ok (true, reply))

  module _ (dumps : Credentials fl.Float → String) where
    -- Some credentials that print like c are among the different ones.
    abbrev Represented : Credentials fl.Float → List (Credentials fl.Float) → Type 0
    Represented c cs = (d : Credentials fl.Float) × (dumps d ≡ dumps c) × Memᴰ d cs
