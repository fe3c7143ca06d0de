-- ===== src/License.antt =====
-- internal/license: the update window of a Personal license (window.go, and enforceUpdateWindow of
-- manager.go). Times are nanoseconds; a date that is not known is `none`.
pub mod Grace
use pulseboard.Common.{
  ℕ, ◌+◌, ◌*◌, String, Bool, true, false, not, ◌||◌, Option, none, some, ltb, leb, if◌then◌else◌,
}

pub data Edition : Type 0 where
  no_edition community personal pro : Edition

abbrev pub is_bare : Edition → Bool
is_bare no_edition = true
is_bare community = true
is_bare _ = false

pub record UpdateWindowRecord : Type 0 where
  pub window_end : ℕ
  pub opened_at : ℕ
  pub version : String
  pub build_date : ℕ

pub record State : Type 0 where
  pub edition : Edition
  pub status : String
  pub message : String
  pub updates_until : Option ℕ
  pub update_grace_until : Option ℕ

-- The running binary.
pub record Build : Type 0 where
  pub version : String
  pub date : Option ℕ

-- The texts that only people read.
pub record Messages : Type 0 where
  pub grace : ℕ → ℕ → ℕ → String
  pub ended : ℕ → String

abbrev pub day : ℕ
day = 86400000000000

abbrev pub update_window_grace_period : ℕ
update_window_grace_period = 30 * day

abbrev pub status_update_window_grace : String
status_update_window_grace = "update_window_grace"

abbrev pub status_update_window_ended : String
status_update_window_ended = "update_window_ended"

-- Which record to hold, and whether it must be written.
unfoldable pub reconcile_window :
    Option UpdateWindowRecord → ℕ → ℕ → String → ℕ → UpdateWindowRecord × Bool
reconcile_window none window_end now version build_date = (
  record { window_end = window_end; opened_at = now; version = version; build_date = build_date },
  true,
)
reconcile_window (some stored) window_end now version build_date =
    if ltb stored.window_end window_end || ltb now stored.opened_at
    then (
      record {
        window_end = window_end;
        opened_at = now;
        version = version;
        build_date = build_date;
      },
      true,
    )
    else (stored, false)

unfoldable pub update_grace_end : UpdateWindowRecord → ℕ
update_grace_end rec = rec.opened_at + update_window_grace_period

-- enforceUpdateWindow from its reading of the record on, for a build dated after the window: the
-- state, and the record in its file.
unfoldable pub bridle :
    Messages
    → Bool
    → Build
    → ℕ
    → ℕ
    → ℕ
    → State
    → Option UpdateWindowRecord
    → State × Option UpdateWindowRecord
unfolding reconcile_window update_grace_end
bridle texts write_fails build build_date now window_end state stored =
    let (rec, must_write) = reconcile_window stored window_end now build.version build_date in
    let grace_end = update_grace_end rec in
    let held = if must_write then if write_fails then stored else some rec else stored in
    if ltb now grace_end
    then (
      record state {
        update_grace_until = some grace_end;
        status = status_update_window_grace;
        message = texts.grace window_end grace_end now;
      },
      held,
    )
    else (
      record state {
        update_grace_until = some grace_end;
        status = status_update_window_ended;
        edition = community;
        message = texts.ended window_end;
      },
      held,
    )

-- A build that is known to be dated after the window.
abbrev bridle_if :
    Messages
    → Bool
    → Build
    → Option ℕ
    → ℕ
    → ℕ
    → State
    → Option UpdateWindowRecord
    → State × Option UpdateWindowRecord
bridle_if texts write_fails build none now window_end state stored = (state, stored)
bridle_if texts write_fails build (some date) now window_end state stored =
    if not (ltb window_end date)
    then (state, stored)
    else bridle texts write_fails build date now window_end state stored

unfoldable pub enforce_update_window :
    Messages
    → Bool
    → Build
    → ℕ
    → Option ℕ
    → State
    → Option UpdateWindowRecord
    → State × Option UpdateWindowRecord
unfolding bridle
enforce_update_window texts write_fails build now none state stored = (state, stored)
enforce_update_window texts write_fails build now (some window_end) state stored =
    let seen = record state { updates_until = some window_end } in
    if is_bare state.edition
    then (seen, stored)
    else bridle_if texts write_fails build build.date now window_end seen stored
