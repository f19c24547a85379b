-- ===== src/Pairing/Manager/Calls.antt =====
-- Runs of calls on one manager, in any order and at any times.
use android_streamdeck.Base.{ℕ, ◌+◌, List, [], ◌∷◌, if◌then◌else◌}
use android_streamdeck.Base.Text.{Text, text_eq}
use android_streamdeck.Pairing.Library.{Library}
use android_streamdeck.Pairing.Manager.{
  Manager, new_manager, Result, ok, err, Claim, Presentation, create_session, bootstrap, claim,
  active_session_count, expire_from_timer,
}

-- The methods with their arguments, and the timer's function.
pub data Call : Type 0 where
  create : Text → ℕ → Text → ℕ → ℕ → Text → Text → Call
  fetch : Text → ℕ → Call
  present : Text → Text → Text → Text → ℕ → Call
  count : ℕ → Call
  timer_fires : Text → ℕ → Call

-- How many sessions with this id a call created, and how many claims for it it granted.
abbrev pub created_here : Text → Result Presentation → ℕ
created_here id (ok p) = if text_eq p.session_id id then 1 else 0
created_here id (err e) = 0

abbrev pub granted_here : Text → Result Claim → ℕ
granted_here id (ok c) = if text_eq c.session_id id then 1 else 0
granted_here id (err e) = 0

-- The manager, with the sessions created and the claims granted so far for one id.
pub record Ledger : Type 0 where
  pub manager : Manager
  pub created : ℕ
  pub granted : ℕ

abbrev pub new_ledger : Ledger
new_ledger = record { manager = new_manager; created = 0; granted = 0 }

module _ (lib : Library) (id : Text) where
  unfoldable pub perform : Call → Ledger → Ledger
  perform (create ip port pem now mono bytes salt) l =
      let (r, m) = create_session lib ip port pem now mono bytes salt l.manager in
      record l { manager = m; created = l.created + created_here id r }
  perform (fetch j mono) l = record l { manager = (bootstrap lib j mono l.manager).1 }
  perform (present j client version proof mono) l =
      let (r, m) = claim lib j client version proof mono l.manager in
      record l { manager = m; granted = l.granted + granted_here id r }
  perform (count mono) l = record l { manager = (active_session_count mono l.manager).1 }
  perform (timer_fires j mono) l = record l { manager = expire_from_timer j mono l.manager }

  unfoldable pub perform_all : List Call → Ledger → Ledger
  perform_all [] l = l
  perform_all (c ∷ cs) l = perform_all cs (perform c l)
