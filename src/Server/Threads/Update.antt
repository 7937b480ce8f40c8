-- ===== src/Server/Threads/Update.antt =====
-- One connection put in the place of another.
use cm108_driver_rust.Base.{ℕ, ◌≡◌, ◌≢◌, ==_ne, ==_refl, if-true, if-false}
use cm108_driver_rust.Server.Threads.{Connection, update}

pub update-same : (cs : ℕ → Connection) (k : ℕ) (c : Connection) → update cs k c k ≡ c
unfolding update
update-same cs k c = if-true c (cs k) (==_refl k)

pub update-other :
    (cs : ℕ → Connection) (k : ℕ) (c : Connection) (j : ℕ) → j ≢ k → update cs k c j ≡ cs j
unfolding update
update-other cs k c j ne = if-false c (cs j) (==_ne j k ne)
