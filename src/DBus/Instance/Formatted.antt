-- ===== src/DBus/Instance/Formatted.antt =====
-- What formatters make of the simple values that complex instances are given.
use obmc_webapp.Prelude.{String, ◌≡◌, sym, Option, none, some, List, [], ◌∷◌}
use obmc_webapp.Prelude.Maps.{find, string_key}
use obmc_webapp.Core.Exceptions.{ok, ok-injective, >>=-ok}
use obmc_webapp.DBus.Values.{Platform, FieldType, DbusVariant, simple}
use obmc_webapp.DBus.Instance.{Formatter, QueryView, run_formatters, format_by, process_formatters}

module _ (platform : Platform) where
  run_formatters_simple :
      (fs : List (Formatter platform)) (property : String) (v : FieldType platform)
      (w : DbusVariant platform)
      → run_formatters platform fs property (simple v) ≡ ok w
      → (u : FieldType platform) × (w ≡ simple u)
  unfolding run_formatters
  run_formatters_simple [] property v w h = (v, sym (ok-injective h))
  run_formatters_simple (f ∷ rest) property v w h =
      let (u, formatted, later) =
        >>=-ok (f property (simple v)) (λ u'. run_formatters platform rest property (simple u')) w
          h in
      run_formatters_simple rest property u w later

  format_by_simple :
      (o : Option (List (Formatter platform))) (property : String) (v : FieldType platform)
      (w : DbusVariant platform)
      → format_by platform o property (simple v) ≡ ok w
      → (u : FieldType platform) × (w ≡ simple u)
  unfolding format_by
  format_by_simple none property v w h = (v, sym (ok-injective h))
  format_by_simple (some fs) property v w h = run_formatters_simple fs property v w h

  -- What the formatters of a query make of a simple value is simple, so that a complex instance is
  -- never given another.
  process_formatters_simple :
      (query : QueryView platform) (property : String) (v : FieldType platform)
      (w : DbusVariant platform)
      → process_formatters platform query property (simple v) ≡ ok w
      → (u : FieldType platform) × (w ≡ simple u)
  unfolding process_formatters
  process_formatters_simple query property v w h =
      format_by_simple (find property query.formatters) property v w h
