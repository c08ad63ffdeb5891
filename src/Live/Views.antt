-- ===== src/Live/Views.antt =====
-- The `now` and `upcoming` views of src/live.rs, and the confirming relay.
-- `parse` is the parser of the `url` crate.
use stophammer.Common.{
  Bool, true, false, not, Option, none, some, List, String, str_eq, any, if◌then◌else◌,
}
use stophammer.Common.Int.{ℤ, pos, add_i64, ltb_ℤ}
use stophammer.Common.Text.{eq_ignore_ascii_case}
use stophammer.FetchGuard.Guard.{Url}

pub record LiveEvent : Type 0 where
  pub live_item_guid : String
  pub status : String
  pub scheduled_start : Option ℤ
  pub scheduled_end : Option ℤ

abbrev pub live_end_margin_secs : ℤ
live_end_margin_secs = pos 3600

abbrev pub pending_start_margin_secs : ℤ
pending_start_margin_secs = pos 3600

abbrev host_is_listed : List String → Option String → Bool
host_is_listed hosts none = false
host_is_listed hosts (some host) = any (λ listed. eq_ignore_ascii_case listed host) hosts

abbrev url_confirms : List String → Option Url → Bool
url_confirms hosts none = false
url_confirms hosts (some parsed) =
    if not (str_eq parsed.scheme "https") then false else host_is_listed hosts parsed.host_str

unfoldable pub is_confirming_relay : (String → Option Url) → Option String → List String → Bool
is_confirming_relay parse none hosts = false
is_confirming_relay parse (some uri) hosts = url_confirms hosts (parse uri)

abbrev before_end : ℤ → Option ℤ → Bool
before_end now none = true
before_end now (some scheduled_end) = ltb_ℤ now (add_i64 scheduled_end live_end_margin_secs)

unfoldable pub in_now_view : LiveEvent → ℤ → Bool → Bool
in_now_view row now confirming =
    if not (eq_ignore_ascii_case row.status "live")
    then false
    else if confirming
    then true
    else before_end now row.scheduled_end

abbrev before_time : ℤ → Option ℤ → Option ℤ → Bool
before_time now start (some scheduled_end) = ltb_ℤ now scheduled_end
before_time now none none = false
before_time now (some scheduled_start) none =
    ltb_ℤ now (add_i64 scheduled_start pending_start_margin_secs)

unfoldable pub in_upcoming_view : LiveEvent → ℤ → Bool
in_upcoming_view row now =
    if not (eq_ignore_ascii_case row.status "pending")
    then false
    else before_time now row.scheduled_start row.scheduled_end
