-- ===== src/Com/WaitAsync.antt =====
-- `WaitAsync` and `ErrgroupReceive` of com/com.go: an error on its way through a channel.
use icinga_go_library.Prelude.{Option, none, some, List, [], ◌∷◌, ◌≡◌, refl}

-- What the channel delivers before it is closed; `none` is a nil error of the waiter.
unfoldable pub wait_async : {E : Type 0} → Option E → List E
wait_async none = []
wait_async (some e) = e ∷ []

-- `return <-err`: a receive from the closed channel is nil
unfoldable pub errgroup_receive : {E : Type 0} → List E → Option E
errgroup_receive [] = none
errgroup_receive (e ∷ es) = some e

-- A group that receives from the channel of a waiter ends as the waiter does.
pub errgroup_receive-wait_async : {E : Type 0} (r : Option E) → errgroup_receive (wait_async r) ≡ r
unfolding wait_async errgroup_receive
errgroup_receive-wait_async none = refl
errgroup_receive-wait_async (some e) = refl
