-- ===== src/Resource.antt =====
-- src/resource.c: the lock of the resource manager, on its word. `Resource_Request` is empty.
use valeo.Base.{ℕ, Bool}
use valeo.Base.Run.{Cmd}
use valeo.Lock

-- `Resource_Init`, by `Resource_LockInit`
unfoldable pub init : ℕ → ℕ
init word = Lock.init word

-- `Resource_Lock` and `Resource_Unlock`
pub lock : (init_done : Bool) (fuel : ℕ) → Cmd ℕ (Unit {0})
lock init_done fuel word = Lock.lock init_done fuel word

pub unlock : (init_done : Bool) → ℕ → ℕ
unlock init_done word = Lock.unlock init_done word
