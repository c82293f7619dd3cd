-- ===== src/Sms/Consent/Quiet.antt =====
-- The quiet hours are an interval on the clock face, which may run over midnight.
use signmons_calldesk_backen.Base.{ℕ, ◌+◌, ◌-◌, ◌%◌, ◌<◌, ◌≡◌, ◌↔◌, true, arith}
use signmons_calldesk_backen.Sms.Keywords.{is_quiet_hour}

-- An hour is quiet exactly when the hours gone since the start are fewer than those from the start to
-- the end, both counted round the clock.
pub is_quiet_hour_iff :
    (hour start end : ℕ)
    → hour < 24
    → start < 24
    → end < 24
    → (is_quiet_hour hour start end ≡ true) ↔ ((hour + 24 - start) % 24 < (end + 24 - start) % 24)
unfolding is_quiet_hour
is_quiet_hour_iff hour start end h s e = (ground arith, ground arith)
