-- ===== src/Cache/SessionCache/Kept.antt =====
-- What is saved is found until it expires.
use quantstack_terminal.Common.{
  ℕ, ◌≡◌, ◌≢◌, refl, ap, ◌∙◌, Bool, true, false, inl, inr, Option, none, some, Text, text_eq, ltb,
  leb, if◌then◌else◌, Bool-cases, get, put, remove, get-put_self, get-put_ne, arith, Distinct,
  IsFresh-remove_self, Distinct-put, get_of_IsFresh,
}
use quantstack_terminal.Cache.SessionCache.{
  File, Directory, parsed, corrupt, from_file, from_envelope, file_for, save_session, load_session,
  clear_session,
}

module _ {T : Type 0} where
  written : ℕ → T → ℕ → File T
  written at data_ expires_at =
      parsed record { saved_at = at; expires_at = some expires_at; content = some data_ }

  load_session-found :
      (at now : ℕ) (id : Text) (data_ : T) (expires_at : ℕ) (disk : Directory T)
      → get (file_for id) disk ≡ some (written at data_ expires_at)
      → load_session now id disk
        ≡ (if leb expires_at now then (remove (file_for id) disk, none) else (disk, some data_))
  unfolding load_session clear_session written
  load_session-found at now id data_ expires_at disk here = rw (load_session, here) refl

  pub load_session-fresh :
      (at now : ℕ) (id : Text) (data_ : T) (expires_at : ℕ) (disk : Directory T)
      → ltb now expires_at ≡ true
      → load_session now id (save_session true at id data_ expires_at disk)
        ≡ (save_session true at id data_ expires_at disk, some data_)
  unfolding save_session written
  load_session-fresh at now id data_ expires_at disk young =
      let file = written at data_ expires_at in
      let late : leb expires_at now ≡ false = ground arith in
      load_session-found at now id data_ expires_at (put (file_for id) file disk)
        (get-put_self (file_for id) file disk)
      ∙ rw late refl

  pub load_session-expired :
      (at now : ℕ) (id : Text) (data_ : T) (expires_at : ℕ) (disk : Directory T)
      → ltb now expires_at ≡ false
      → load_session now id (save_session true at id data_ expires_at disk)
        ≡ (clear_session id (save_session true at id data_ expires_at disk), none)
  unfolding save_session clear_session written
  load_session-expired at now id data_ expires_at disk old =
      let file = written at data_ expires_at in
      let late : leb expires_at now ≡ true = ground arith in
      load_session-found at now id data_ expires_at (put (file_for id) file disk)
        (get-put_self (file_for id) file disk)
      ∙ rw late refl

  from_envelope-answer :
      (now : ℕ) (id : Text) (data_ : Option T) (expires_at : Option ℕ) (d d' : Directory T)
      → (from_envelope now id data_ expires_at d).1 ≡ (from_envelope now id data_ expires_at d').1
  from_envelope-answer now id none t d d' = refl
  from_envelope-answer now id (some x) none d d' = refl
  from_envelope-answer now id (some x) (some t) d d' = ground arith

  -- The answer depends only on the file.
  from_file-answer :
      (now : ℕ) (id : Text) (file : Option (File T)) (d d' : Directory T)
      → (from_file now id file d).1 ≡ (from_file now id file d').1
  from_file-answer now id none d d' = refl
  from_file-answer now id (some corrupt) d d' = refl
  from_file-answer now id (some (parsed e)) d d' =
      from_envelope-answer now id e.content e.expires_at d d'

  load_session-get :
      (now : ℕ) (id : Text) (d d' : Directory T)
      → get (file_for id) d ≡ get (file_for id) d'
      → (load_session now id d).1 ≡ (load_session now id d').1
  unfolding load_session
  load_session-get now id d d' e = rw e (from_file-answer now id (get (file_for id) d') d d')

  save_session-apart :
      (writable : Bool) (at now : ℕ) (id other : Text) (data_ : T) (expires_at : ℕ)
      (disk : Directory T)
      → file_for id ≢ file_for other
      → (load_session now other (save_session writable at id data_ expires_at disk)).1
        ≡ (load_session now other disk).1
  unfolding save_session
  save_session-apart true at now id other data_ expires_at disk differ =
      let file =
        parsed record { saved_at = at; expires_at = some expires_at; content = some data_ } in
      load_session-get now other (put (file_for id) file disk) disk
        (get-put_ne (file_for id) (file_for other) file disk differ)
  save_session-apart false at now id other data_ expires_at disk differ = refl

  clear_session-gone :
      (id : Text) (disk : Directory T)
      → Distinct disk
      → get (file_for id) (clear_session id disk) ≡ none
  unfolding clear_session
  clear_session-gone id disk keys =
      get_of_IsFresh (file_for id) (remove (file_for id) disk)
        (IsFresh-remove_self (file_for id) disk keys)

  save_session-Distinct :
      (writable : Bool) (at : ℕ) (id : Text) (data_ : T) (expires_at : ℕ) (disk : Directory T)
      → Distinct disk
      → Distinct (save_session writable at id data_ expires_at disk)
  unfolding save_session
  save_session-Distinct true at id data_ expires_at disk keys =
      Distinct-put (file_for id)
        (parsed record { saved_at = at; expires_at = some expires_at; content = some data_ }) disk
        keys
  save_session-Distinct false at id data_ expires_at disk keys = keys

  -- What loads at `now` find of a session that was saved, and of another feed's.
  pub record ComesBack (now : ℕ) (id other : Text) (data_ : T) (expires_at : ℕ)
      (disk saved : Directory T) : Type 0 where
    pub found : (load_session now id saved).1 ≡ (if ltb now expires_at then some data_ else none)
    pub left :
        get (file_for id) (load_session now id saved).0
        ≡ (if ltb now expires_at then get (file_for id) saved else none)
    pub apart : (load_session now other saved).1 ≡ (load_session now other disk).1

  -- A session that was saved while the directory could be written is found, with all its data, exactly
  -- until it expires; a load from then on removes its file. A session whose id has another file is
  -- found as before.
  pub load_session-save_session :
      (at now : ℕ) (id other : Text) (data_ : T) (expires_at : ℕ) (disk : Directory T)
      → Distinct disk
      → file_for id ≢ file_for other
      → ComesBack now id other data_ expires_at disk (save_session true at id data_ expires_at disk)
  load_session-save_session at now id other data_ expires_at disk keys differ =
      let saved = save_session true at id data_ expires_at disk in
      elim (Bool-cases (ltb now expires_at)) [
        | inl young ↦
            let e = load_session-fresh at now id data_ expires_at disk young in
            record {
              found = ap (λ r. r.1) e ∙ rw young refl;
              left = ap (λ r. get (file_for id) r.0) e ∙ rw young refl;
              apart = save_session-apart true at now id other data_ expires_at disk differ;
            }
        | inr old ↦
            let e = load_session-expired at now id data_ expires_at disk old in
            record {
              found = ap (λ r. r.1) e ∙ rw old refl;
              left =
                  ap (λ r. get (file_for id) r.0) e
                  ∙ rw old (
                      clear_session-gone id saved
                        (save_session-Distinct true at id data_ expires_at disk keys));
              apart = save_session-apart true at now id other data_ expires_at disk differ;
            }
      ]
