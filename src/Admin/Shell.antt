-- ===== src/Admin/Shell.antt =====
-- admin/AdminApp.tsx: `AdminShell`, which page an address shows.
use mullet.Base.{
  Text, String, codes, Bool, true, false, not, ◌&&◌, ◌||◌, Option, none, some, ◌≡◌, ◌↔◌, ◌⊎◌, ◌≢◌,
  if◌then◌else◌, str_eq, arith, or_else, refl, sym, subst, some_inj,
}
use mullet.Admin.Session.{Session, is_authenticated, receive_status, Access, logout}

pub record SetupStatus : Type 0 where
  pub required : Bool
  pub auth_disabled : Option Bool

-- What `GET /api/admin/setup` settles with.
pub data SetupAnswer : Type 0 where
  answered : SetupStatus → SetupAnswer
  failed : SetupAnswer

unfoldable pub load_status : SetupAnswer → Option SetupStatus
load_status (answered status) = some status
load_status failed = some (record { required = false; auth_disabled = none })

-- `onComplete` of the setup wizard
unfoldable pub complete_setup : SetupStatus → Option SetupStatus
complete_setup status = some (record status { required = false })

-- The state `status`: null until the check has settled, and then as the wizard leaves it.
abbrev after_wizard : Bool → SetupStatus → Option SetupStatus
after_wizard false status = some status
after_wizard true status = complete_setup status

abbrev after_check : Bool → Option SetupStatus → Option SetupStatus
after_check completed none = none
after_check completed (some status) = after_wizard completed status

unfoldable pub status_after : Option SetupAnswer → Bool → Option SetupStatus
unfolding load_status complete_setup
status_after none completed = none
status_after (some answer) completed = after_check completed (load_status answer)

pub data ShellPage : Type 0 where
  forgot_password reset_password loading setup_wizard sign_in : ShellPage
  -- `AdminLayout` with its `username`
  layout : Option Text → ShellPage

abbrev pub is_layout : ShellPage → Bool
is_layout (layout name) = true
is_layout _ = false

-- `!!status.auth_disabled`
abbrev pub is_disabled : SetupStatus → Bool
is_disabled status = or_else status.auth_disabled false

-- No setup is required, or it has been completed.
abbrev pub IsSetUp : SetupAnswer → Bool → Type 0
IsSetUp (answered status) completed = (status.required ≡ false) ⊎ (completed ≡ true)
IsSetUp failed completed = Unit

-- The check answered that authentication is switched off.
abbrev pub IsOff : SetupAnswer → Type 0
IsOff (answered status) = is_disabled status ≡ true
IsOff failed = ⊥

abbrev forgot_path : String
forgot_path = "/admin/forgot-password"

abbrev reset_path : String
reset_path = "/admin/reset-password"

-- The pages that need no session.
unfoldable pub is_recovery : String → Bool
is_recovery path = str_eq path forgot_path || str_eq path reset_path

module _ {Number : Type 0} where
  signed_page : SetupStatus → Session Number → ShellPage
  signed_page status s =
      if not (is_authenticated s) && not (is_disabled status)
      then sign_in
      else layout (if is_disabled status then some (codes "dev") else s.username)

  status_page : Option SetupStatus → Session Number → ShellPage
  unfolding signed_page
  status_page none s = loading
  status_page (some status) s = if status.required then setup_wizard else signed_page status s

  unfoldable pub admin_shell : String → Option SetupStatus → Session Number → ShellPage
  unfolding status_page
  admin_shell path status s =
      if str_eq path forgot_path
      then forgot_password
      else if str_eq path reset_path
      then reset_password
      else status_page status s

  page_after :
      (status : SetupStatus) (completed : Bool) (s : Session Number)
      → (is_layout (status_page (after_wizard completed status) s) ≡ true) ↔ (
          ((status.required ≡ false) ⊎ (completed ≡ true))
          × ((is_authenticated s ≡ true) ⊎ (is_disabled status ≡ true)))
  unfolding status_page signed_page complete_setup
  page_after status true s = ground arith
  page_after status false s = ground arith

  page_failed :
      (completed : Bool) (s : Session Number)
      → (is_layout (status_page (status_after (some failed) completed) s) ≡ true)
        ↔ (Unit {0} × ((is_authenticated s ≡ true) ⊎ ⊥))
  unfolding status_page signed_page complete_setup status_after load_status
  page_failed true s = ground arith
  page_failed false s = ground arith

  page_settled :
      (a : SetupAnswer) (completed : Bool) (s : Session Number)
      → (is_layout (status_page (status_after (some a) completed) s) ≡ true)
        ↔ (IsSetUp a completed × ((is_authenticated s ≡ true) ⊎ IsOff a))
  unfolding status_after load_status
  page_settled (answered status) completed s = page_after status completed s
  page_settled failed completed s = page_failed completed s

  waits :
      (a : SetupAnswer) (completed : Bool) (s : Session Number)
      → status_page (status_after (some a) completed) s ≢ loading
  unfolding status_page signed_page complete_setup status_after load_status
  waits (answered status) true s = λ e. absurd (ground arith)
  waits (answered status) false s = λ e. absurd (ground arith)
  waits failed true s = λ e. absurd (ground arith)
  waits failed false s = λ e. absurd (ground arith)

  shell_page :
      (path : String) (status : Option SetupStatus) (s : Session Number)
      → is_recovery path ≡ false
      → admin_shell path status s ≡ status_page status s
  unfolding is_recovery admin_shell
  shell_page path status s h = ground arith

  -- On an address that is not one of the two for a lost password, the shell shows the admin pages
  -- exactly if the first-run check has settled, by an answer that no setup is required, by one with
  -- the wizard completed since, or by failing, and the tab has a token or the answer switched
  -- authentication off; and it says that it is loading exactly until the check has settled.
  pub admin_shell_iff :
      (path : String) (check : Option SetupAnswer) (completed : Bool) (s : Session Number)
      → is_recovery path ≡ false
      → ((is_layout (admin_shell path (status_after check completed) s) ≡ true) ↔ (
          (a : SetupAnswer) × (check ≡ some a)
          × IsSetUp a completed
          × ((is_authenticated s ≡ true) ⊎ IsOff a)))
        × ((admin_shell path (status_after check completed) s ≡ loading) ↔ (check ≡ none))
  unfolding status_after status_page
  admin_shell_iff path none completed s h =
      rw (shell_page path none s h)
        ((λ e. absurd (cc), λ (a, e, _, _). absurd (cc)), (λ _. refl, λ _. refl))
  admin_shell_iff path (some a) completed s h =
      let (to, from) = page_settled a completed s in
      rw (shell_page path (status_after (some a) completed) s h) (
        (
          λ e. (a, refl, (to e).0, (to e).1),
          λ (b, e, u, v). from (
            subst (λ c. IsSetUp c completed) (sym (some_inj a b e)) u,
            subst (λ c. (is_authenticated s ≡ true) ⊎ IsOff c) (sym (some_inj a b e)) v,
          ),
        ),
        (λ e. absurd (waits a completed s e), λ e. absurd (cc)),
      )

  -- Unless authentication is switched off or setup is required, an answer 401 to any request brings
  -- the sign-in page, at every address that is not one of the two for a lost password.
  pub unauthorized_signs_in :
      (access : Access) (path : String) (status : SetupStatus) (s : Session Number)
      → is_recovery path ≡ false
      → status.required ≡ false
      → is_disabled status ≡ false
      → admin_shell path (some status) (receive_status access 401 s) ≡ sign_in
  unfolding is_recovery admin_shell status_page signed_page receive_status logout is_authenticated
  unauthorized_signs_in access path status s h r d = ground arith
