-- ===== src/Redis/Client/Dial.antt =====
-- `dialWithLogging` of redis/client.go: the dialer is called under the settings with which the connector of
-- database/driver.go dials, and there is nothing to initialise.
use icinga_go_library.Prelude.{ℕ, Bool, false, Option, List, ◌≡◌, ◌≢◌, ◌⊎◌, []}
use icinga_go_library.Retry.{Run, running, returned_nil}
use icinga_go_library.Database.Connector.{Answer, connect, connect_acts, connect_conn}
use icinga_go_library.Database.Connector.Clean.{IsHandedOut, still_open, connect_lem}

module _ {E : Type 0} (retryable : E → Bool) (delays : ℕ → ℕ) where
  -- the run, and the connection that is returned with it
  unfoldable pub dial_with_logging : List (Answer E) → Run E × Option ℕ
  unfolding connect connect_conn
  dial_with_logging answers =
      (connect false retryable delays answers, connect_conn false retryable delays answers)

  -- Once the dialer has returned: with nil, it returns the connection that it opened last, and has opened no
  -- other that is still open; with an error, none is open.
  pub dial_with_logging_lem :
      (answers : List (Answer E))
      → (dial_with_logging answers).0.result ≢ running
      → (((dial_with_logging answers).0.result ≡ returned_nil)
          × IsHandedOut false
              (connect_acts false retryable delays answers)
              (dial_with_logging answers).1)
        ⊎ (((dial_with_logging answers).0.result ≢ returned_nil)
            × (still_open [] (connect_acts false retryable delays answers) ≡ []))
  unfolding dial_with_logging
  dial_with_logging_lem answers h = connect_lem false retryable delays answers h
