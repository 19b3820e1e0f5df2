-- ===== src/Middleware/Query.antt =====
-- `redact_query` of api_service/middleware.py.
use secure_file_system.Base.{List, [], ◌∷◌, map, contains, list_eq, nat_eq, if◌then◌else◌}
use secure_file_system.Base.Text.{Text, Bytes, codes}
use secure_file_system.Erasure.{decode}
use secure_file_system.Python.Urls.{parse_qsl, urlencode}

abbrev pub redacted_query_params : List Text
redacted_query_params = codes "sig" ∷ []

abbrev pub redact_pair : Text × Text → Text × Text
redact_pair (k, v) = (k, if contains redacted_query_params k then codes "REDACTED" else v)

unfoldable pub redact_query : (Bytes → Text) → Text → Text
redact_query decode query = urlencode (map redact_pair (parse_qsl decode query))
