-- ===== src/Net/Hostile.antt =====
-- `receive` on whatever bytes a peer sends.
use new_rpc.Base.{ℕ}
use new_rpc.Serialization.Memory.{Result, ok, thrown, undefined, aborted}
use new_rpc.Serialization.Safety.{IsPlain}
use new_rpc.Net.EndPoint.{EndPoint}
use new_rpc.Net.Service.{Service}

-- The calls that wait expect results of types without an `Expected`, as all registered functions have.
abbrev pub AwaitsPlain : Service → Type 0
AwaitsPlain s = (p : ℕ) → IsPlain (s.callbacks p).ret

-- With the handler of exceptions none gets out.
abbrev pub Survives : (Service → Type 0) → Result Service → Type 0
Survives P (ok s) = P s
Survives P (thrown x) = ⊥
Survives P undefined = ⊥
Survives P aborted = Unit {0}
