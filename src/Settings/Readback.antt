-- ===== src/Settings/Readback.antt =====
-- client/command.c: `set` reports what was set.
use tsunami_udp.Base.{ℕ, ◌≡◌, true, some, Text}
use tsunami_udp.Settings.{Parameter, set_field}
use tsunami_udp.Settings.Report.{report_line, report}

module _ (thousandths : Text → ℕ) (percent : ℕ → Text) (p : Parameter) where
  -- The field under its own name is set, and then shown.
  record SetAndShown (name value shown : Text) : Type 0 where
    changed : Parameter
    set : set_field thousandths true name value p ≡ some changed
    shows : report percent name changed ≡ report_line name shown
