-- ===== src/Service/Configuration/Writing/Restoring.antt =====
-- Reading back the sessions that `populateSessions` writes.
use obmc_webapp.Prelude.{
  ℕ, suc, ◌+◌, String, ◌≡◌, ◌≢◌, refl, sym, ap, subst, ◌∙◌, Bool, Bool-cases, inl, inr, none, some,
  List, [], ◌∷◌, map, select, length, All, arith, str_eq_iff, if◌then◌else◌,
}
use obmc_webapp.Prelude.Maps.{insert_or_assign, emplace, find}
use obmc_webapp.Prelude.Membership.{All-select}
use obmc_webapp.Helpers.Compare.{OpenSsl}
use obmc_webapp.Service.Json.{JsonWriter}
use obmc_webapp.Service.Session.User.{
  UserSession, timeout, fresh_session, ConfigFileStorageType, from_json, is_incomplete,
}
use obmc_webapp.Service.Session.User.Restored.{
  IsComplete, with_texts, read_properties-eq-with_texts,
}
use obmc_webapp.Service.Session.Store.{find_token}
use obmc_webapp.Service.Session.Tokens.{
  find_token-cons, find_token-head, emplace_token-new, still_new,
}
use obmc_webapp.Service.Configuration.{ConfigState, restore, restore_all}
use obmc_webapp.Service.Configuration.Writing.{session_json}

-- The session that stands for `u` after a restart: its five texts, all else as new.
abbrev pub texts_of : UserSession → UserSession
texts_of u = record fresh_session {
  unique_id = u.unique_id;
  session_token = u.session_token;
  username = u.username;
  csrf_token = u.csrf_token;
  client_ip = u.client_ip;
}

abbrev pub restored : ConfigFileStorageType → ℕ → UserSession → UserSession
restored storage now u = record (texts_of u) { last_updated = now; storage_type = storage }

-- Each entry has another key than those after it.
abbrev pub IsDistinct : List (String × UserSession) → Type 0
IsDistinct [] = Unit
IsDistinct (e ∷ rest) = All (λ f. f.0 ≢ e.0) rest × IsDistinct rest

pub IsDistinct-select :
    (p : String × UserSession → Bool) (entries : List (String × UserSession))
    → IsDistinct entries
    → IsDistinct (select p entries)
IsDistinct-select p [] d = tt
IsDistinct-select p (e ∷ rest) (here, later) = elim (Bool-cases (p e)) [
  | inl kept ↦ rw kept (All-select p (λ f. f.0 ≢ e.0) rest here, IsDistinct-select p rest later)
  | inr dropped ↦ rw dropped (IsDistinct-select p rest later)
]

abbrev IsKeptUnder : String × UserSession → Type 0
IsKeptUnder e = (e.0 ≡ e.1.session_token) × IsComplete e.1

module _ (writer : JsonWriter) where
  open writer use {
    reader, from_string, get_string-from_string, items-object, elements-array, items-assign,
  }
  open reader use {Json, items, get_string}

  session_json-texts :
      (key : String) (u : UserSession)
      → with_texts reader (items (session_json writer (key, u))) fresh_session ≡ texts_of u
  unfolding emplace find insert_or_assign
  session_json-texts key u =
      rw
        (
          items-object,
          get_string-from_string u.unique_id,
          get_string-from_string u.session_token,
          get_string-from_string u.username,
          get_string-from_string u.csrf_token,
          get_string-from_string u.client_ip,
        )
        refl

  pub from_json-session_json :
      (key : String) (u : UserSession) (now : ℕ)
      → IsComplete u
      → from_json reader (session_json writer (key, u)) now
        ≡ some (record (texts_of u) { last_updated = now })
  unfolding from_json is_incomplete
  from_json-session_json key u now h =
      let members = items (session_json writer (key, u)) in
      ap
        (λ s.
          if is_incomplete s
          then none
          else some (record s { last_updated = now; persistence = timeout }))
        (read_properties-eq-with_texts reader members fresh_session ∙ session_json-texts key u)
      ∙ ground (
        arith,
        str_eq_iff u.unique_id "",
        str_eq_iff u.username "",
        str_eq_iff u.session_token "",
        str_eq_iff u.csrf_token "",
      )

module _ (ssl : OpenSsl) where
  module _ (readings : ℕ → ℕ) (storage : ConfigFileStorageType) where
    -- The entries that the sessions of a list leave in the store, each in front of the one before.
    abbrev pub restored_all :
        ℕ → List (String × UserSession) → List (String × UserSession) → List (String × UserSession)
    restored_all reads [] tokens = tokens
    restored_all reads ((key, u) ∷ rest) tokens =
        restored_all (suc reads) rest ((key, restored storage (readings reads) u) ∷ tokens)

    -- The state of which a list of sessions has been restored.
    abbrev pub with_restored : List (String × UserSession) → ℕ → ConfigState → ConfigState
    with_restored written reads c = record c {
      store = record c.store { auth_tokens = restored_all c.reads written c.store.auth_tokens };
      reads = reads;
    }

    pub length-restored_all :
        (reads : ℕ) (written tokens : List (String × UserSession))
        → length (restored_all reads written tokens) ≡ length written + length tokens
    length-restored_all reads [] tokens = omega arith
    length-restored_all reads ((key, u) ∷ rest) tokens = omega (
      arith,
      length-restored_all (suc reads) rest ((key, restored storage (readings reads) u) ∷ tokens),
    )

    find_token-restored_all :
        (token : String) (reads : ℕ) (written tokens : List (String × UserSession))
        → All (λ f. f.0 ≢ token) written
        → find_token ssl token (restored_all reads written tokens) ≡ find_token ssl token tokens
    find_token-restored_all token reads [] tokens other = refl
    find_token-restored_all token reads ((key, u) ∷ rest) tokens (here, later) =
        find_token-restored_all token (suc reads) rest _ later
        ∙ find_token-cons ssl key token (restored storage (readings reads) u) tokens here

    -- The store finds `u` again under its token, as it is after a restart.
    abbrev pub IsFound : List (String × UserSession) → String × UserSession → Type 0
    IsFound tokens e =
        (reads : ℕ) × (find_token ssl e.0 tokens ≡ some (restored storage (readings reads) e.1))

    pub restored_all-IsFound :
        (reads : ℕ) (written tokens : List (String × UserSession))
        → IsDistinct written
        → All (IsFound (restored_all reads written tokens)) written
    restored_all-IsFound reads [] tokens d = tt
    restored_all-IsFound reads ((key, u) ∷ rest) tokens (here, later) =
        let v = restored storage (readings reads) u in
        (
          (
            reads,
            find_token-restored_all key (suc reads) rest ((key, v) ∷ tokens) here
                ∙ find_token-head ssl key v tokens,
          ),
          restored_all-IsFound (suc reads) rest ((key, v) ∷ tokens) later,
        )

    module _ (writer : JsonWriter) where
      open writer use {reader}

      restore-session_json :
          (key : String) (u : UserSession) (c : ConfigState)
          → IsKeptUnder (key, u)
          → find_token ssl key c.store.auth_tokens ≡ none
          → restore reader ssl readings storage
              (from_json reader (session_json writer (key, u)) (readings c.reads))
              c
            ≡ with_restored ((key, u) ∷ []) (suc c.reads) c
      unfolding restore
      restore-session_json key u c (e, whole) new =
          let tokens = c.store.auth_tokens in
          let v = restored storage (readings c.reads) u in
          ap (λ o. restore reader ssl readings storage o c)
            (from_json-session_json writer key u (readings c.reads) whole)
          ∙ ap
              (λ entries. record c {
                store = record c.store { auth_tokens = entries };
                reads = suc c.reads;
              })
              (emplace_token-new ssl u.session_token v tokens
                  (subst (λ k. find_token ssl k tokens ≡ none) e new)
                ∙ ap (λ k. (k, v) ∷ tokens) (sym e))

      pub restore_all-session_json :
          (written : List (String × UserSession)) (c : ConfigState)
          → All IsKeptUnder written
          → IsDistinct written
          → All (λ e. find_token ssl e.0 c.store.auth_tokens ≡ none) written
          → restore_all reader ssl readings storage (map (session_json writer) written) c
            ≡ with_restored written (length written + c.reads) c
      unfolding restore_all
      restore_all-session_json [] c k d n = ap (λ reads. with_restored [] reads c) (omega arith)
      restore_all-session_json ((key, u) ∷ rest) c (kept, k) (here, d) (new, n) =
          let next = with_restored ((key, u) ∷ []) (suc c.reads) c in
          ap (restore_all reader ssl readings storage (map (session_json writer) rest))
            (restore-session_json key u c kept new)
          ∙ restore_all-session_json rest next k d (
              still_new ssl key (restored storage (readings c.reads) u) c.store.auth_tokens rest
                here n)
          ∙ ap (λ reads. with_restored ((key, u) ∷ rest) reads c) (omega arith)
