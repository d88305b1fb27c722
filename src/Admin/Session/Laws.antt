-- ===== src/Admin/Session/Laws.antt =====
-- AuthContext.tsx against what a session is: a token and a user's name, or none, that signing in sets
-- and that signing out and an answer 401 clear.
use mullet.Base.{
  subst, Text, Option, none, some, List, [], ◌∷◌, ◌≡◌, refl, inl, inr, if◌then◌else◌, ◌==◌,
  Bool-cases,
}
use mullet.Admin.Session.{
  Item, Access, StoredSession, Session, LoginAnswer, VerifyAnswer, SessionEvent,
  read_stored_session, write_stored_session, open_session, set_session, logout, login, verify_mfa,
  receive_status, session_step, session_run, token_of, username_of,
}

-- What an event does to the session that a user has.
unfoldable pub account_step : SessionEvent → Option StoredSession → Option StoredSession
account_step (SessionEvent.logs_in u (LoginAnswer.issued t)) a =
    some (record { token = t; username = u })
account_step (SessionEvent.logs_in u answer) a = a
account_step (SessionEvent.verifies u (VerifyAnswer.issued t)) a =
    some (record { token = t; username = u })
account_step (SessionEvent.verifies u answer) a = a
account_step (SessionEvent.sets_up t u) a = some (record { token = t; username = u })
account_step (SessionEvent.receives status) a = if status == 401 then none else a
account_step SessionEvent.signs_out a = none
account_step SessionEvent.reloads a = a

unfoldable pub account_run : List SessionEvent → Option StoredSession → Option StoredSession
account_run [] a = a
account_run (e ∷ es) a = account_run es (account_step e a)

module _ {Number : Type 0} where
  -- The memory and the storage hold this session.
  pub record Holds (a : Option StoredSession) (s : Session Number) : Type 0 where
    pub token : s.token ≡ token_of a
    pub username : s.username ≡ username_of a
    pub stored : read_stored_session Access.works s.item ≡ a

  open_session-Holds :
      (i : Option (Item Number))
      → Holds (read_stored_session Access.works i) (open_session Access.works i)
  unfolding open_session
  open_session-Holds i = record { token = refl; username = refl; stored = refl }

  set_session-Holds :
      (t u : Text) (s : Session Number)
      → Holds (some (record { token = t; username = u })) (set_session Access.works t u s)
  unfolding set_session read_stored_session write_stored_session
  set_session-Holds t u s = record { token = refl; username = refl; stored = refl }

  logout-Holds : (s : Session Number) → Holds none (logout Access.works s)
  unfolding logout read_stored_session write_stored_session
  logout-Holds s = record { token = refl; username = refl; stored = refl }

  step-Holds :
      (e : SessionEvent) (a : Option StoredSession) (s : Session Number)
      → Holds a s
      → Holds (account_step e a) (session_step Access.works e s)
  unfolding account_step session_step login verify_mfa receive_status
  step-Holds (SessionEvent.logs_in u LoginAnswer.refused) a s h = h
  step-Holds (SessionEvent.logs_in u (LoginAnswer.mfa_required p)) a s h = h
  step-Holds (SessionEvent.logs_in u (LoginAnswer.issued t)) a s h = set_session-Holds t u s
  step-Holds (SessionEvent.logs_in u (LoginAnswer.unreachable m)) a s h = h
  step-Holds (SessionEvent.verifies u VerifyAnswer.wrong) a s h = h
  step-Holds (SessionEvent.verifies u (VerifyAnswer.issued t)) a s h = set_session-Holds t u s
  step-Holds (SessionEvent.verifies u (VerifyAnswer.unreachable m)) a s h = h
  step-Holds (SessionEvent.sets_up t u) a s h = set_session-Holds t u s
  step-Holds (SessionEvent.receives status) a s h = elim (Bool-cases (status == 401)) [
    | inl e ↦ rw e (logout-Holds s)
    | inr e ↦ rw e h
  ]
  step-Holds SessionEvent.signs_out a s h = logout-Holds s
  step-Holds SessionEvent.reloads a s h =
      subst (λ b. Holds b (open_session Access.works s.item)) h.stored (open_session-Holds s.item)

  run-Holds :
      (es : List SessionEvent) (a : Option StoredSession) (s : Session Number)
      → Holds a s
      → Holds (account_run es a) (session_run Access.works es s)
  unfolding account_run session_run
  run-Holds [] a s h = h
  run-Holds (e ∷ es) a s h =
      run-Holds es (account_step e a) (session_step Access.works e s) (step-Holds e a s h)

  -- Where `sessionStorage` works, the memory and the storage of a tab hold the session of its user at
  -- any time: what was stored when the tab opened, changed by the events since, of which a reload is
  -- one that changes nothing.
  pub session_run-Holds :
      (es : List SessionEvent) (i : Option (Item Number))
      → Holds
          (account_run es (read_stored_session Access.works i))
          (session_run Access.works es (open_session Access.works i))
  session_run-Holds es i =
      run-Holds es (read_stored_session Access.works i) (open_session Access.works i)
        (open_session-Holds i)
