-- ===== src/Service/Configuration/Writing/RoundTrip.antt =====
-- src/service/configuration.hpp: reading what was populated gives back the sessions, the methods of
-- authentication, the timeout and the UUID.
use obmc_webapp.Prelude.{ℕ, ◌+◌, ◌≡◌, sym, ap, subst, ◌∙◌, some, [], length, str_eq, if◌then◌else◌}
use obmc_webapp.Core.Exceptions.{ok, err}
use obmc_webapp.Helpers.Compare.{OpenSsl}
use obmc_webapp.Service.Json.{JsonWriter}
use obmc_webapp.Service.Session.User.{config_long_term_storage, config_current_bmc_session}
use obmc_webapp.Service.Configuration.{
  ConfigState, uuid_error, read_item, read_items, read_content, read_data,
}
use obmc_webapp.Service.Configuration.Sessions.{IsKeyed}
use obmc_webapp.Service.Configuration.Writing.{config_populate_handlers}
use obmc_webapp.Service.Configuration.Writing.Restoring.{IsDistinct}
use obmc_webapp.Service.Configuration.Writing.Rereading.{
  populated, written, HasWritten, HasWritten-with_restored, items-current_bmc, read_items-sessions,
  read_items-long_term,
}

module _ (writer : JsonWriter) (ssl : OpenSsl) (readings : ℕ → ℕ) where
  open writer use {reader, elements-array}
  open reader use {elements}

  -- What is populated for the long-term storage from a state whose sessions are complete, under
  -- their own tokens, and no two under one, is read back by a store that has no session yet: it then
  -- has each session of that storage that outlives a request, with its five texts, and no other
  -- session; and the methods of authentication, the timeout and the UUID are those of that state.
  pub read_content-populated :
      (source c : ConfigState)
      → IsKeyed source
      → IsDistinct source.store.auth_tokens
      → c.store.auth_tokens ≡ []
      → let c' =
          read_content reader ssl readings config_long_term_storage
            (some (
              some (
                populated writer
                  (config_populate_handlers writer config_long_term_storage)
                  source)))
            c in
        HasWritten writer ssl readings config_long_term_storage source c'
        × (c'.store.auth_methods_config ≡ source.store.auth_methods_config)
        × (c'.store.timeout_in_seconds ≡ source.store.timeout_in_seconds)
        × (c'.system_uuid ≡ source.system_uuid)
  read_content-populated source c k d e =
      let p = read_items-long_term writer ssl readings source c k d e in
      (
        subst (HasWritten writer ssl readings config_long_term_storage source) (sym p) (
            HasWritten-with_restored writer ssl readings config_long_term_storage source c
              (length (written writer config_long_term_storage source) + c.reads) d e),
        ap (λ s. s.store.auth_methods_config) p,
        ap (λ s. s.store.timeout_in_seconds) p,
        ap (λ s. s.system_uuid) p,
      )

  -- What is populated for the sessions of the running BMC is read back likewise, but it holds
  -- neither the UUID nor the settings: these stay as they were, and where no UUID was known the
  -- reading ends in the exception that the UUID is not captured.
  pub read_data-populated :
      (source c : ConfigState)
      → IsKeyed source
      → IsDistinct source.store.auth_tokens
      → c.store.auth_tokens ≡ []
      → let (c', outcome) =
          read_data reader ssl readings
            (some (
              some (
                populated writer
                  (config_populate_handlers writer config_current_bmc_session)
                  source)))
            c in
        HasWritten writer ssl readings config_current_bmc_session source c'
        × (c'.store.auth_methods_config ≡ c.store.auth_methods_config)
        × (c'.store.timeout_in_seconds ≡ c.store.timeout_in_seconds)
        × (c'.system_uuid ≡ c.system_uuid)
        × (outcome ≡ (if str_eq c.system_uuid "" then err uuid_error else ok tt))
  unfolding read_data read_content read_items read_item
  read_data-populated source c k d e =
      let storage = config_current_bmc_session in
      let p =
        ap (λ members. read_items reader ssl readings storage members c)
          (items-current_bmc writer source)
        ∙ read_items-sessions writer ssl readings storage source c k d e in
      (
        subst (HasWritten writer ssl readings storage source) (sym p) (
            HasWritten-with_restored writer ssl readings storage source c
              (length (written writer storage source) + c.reads) d e),
        ap (λ s. s.store.auth_methods_config) p,
        ap (λ s. s.store.timeout_in_seconds) p,
        ap (λ s. s.system_uuid) p,
        ap (λ s. if str_eq s.system_uuid "" then err uuid_error else ok tt) p,
      )
