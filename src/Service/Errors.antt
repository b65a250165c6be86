-- ===== src/Service/Errors.antt =====
-- crates/kms-service/src/errors/app_error.rs: the errors, without the sources that they wrap, their
-- texts, and the answers that they become.
use Prim.Native.String.{◌++◌}
use kms_platform.Common.{ℕ, String}

pub data AppError : Type 0 where
  key_not_found : String → AppError
  unauthorized : AppError
  forbidden : AppError
  not_found : String → AppError
  validation_error : String → AppError
  crypto_error : String → AppError
  database_error : String → AppError
  redis_error : AppError
  hsm_error : String → AppError
  timeout_error : AppError
  config_error : String → AppError
  serialization_error : String → AppError
  runtime_error : String → AppError
  conflict : String → AppError
  external_service_error : String → AppError
  internal : String → AppError

-- `Display`
unfoldable pub to_string : AppError → String
to_string (key_not_found s) = "Nie znaleziono klucza: " ++ s
to_string unauthorized = "Autoryzacja nie powiodła się"
to_string forbidden = "Brak uprawnień do wykonania tej akcji"
to_string (not_found s) = "Nie znaleziono zasobu: " ++ s
to_string (validation_error s) = "Błędne dane wejściowe: " ++ s
to_string (crypto_error s) = s
to_string (database_error s) = s
to_string redis_error = "Błąd usługi Redis"
to_string (hsm_error s) = "Błąd komunikacji z HSM: " ++ s
to_string timeout_error = "Błąd timeout"
to_string (config_error s) = "Błąd konfiguracji: " ++ s
to_string (serialization_error s) = "Błąd serializacji/deserializacji: " ++ s
to_string (runtime_error s) = "Błąd środowiska wykonawczego: " ++ s
to_string (conflict s) = "Zasób w konflikcie: " ++ s
to_string (external_service_error s) = "Błąd zewnętrznej usługi (HTTP): " ++ s
to_string (internal s) = "Wystąpił nieoczekiwany błąd serwera: " ++ s

unfoldable pub error_code : AppError → String
error_code (key_not_found s) = "KEY_NOT_FOUND"
error_code unauthorized = "UNAUTHORIZED"
error_code forbidden = "FORBIDDEN"
error_code (not_found s) = "RESOURCE_NOT_FOUND"
error_code (validation_error s) = "VALIDATION_ERROR"
error_code (conflict s) = "CONFLICT_ERROR"
error_code (crypto_error s) = "CRYPTO_FAILURE"
error_code (database_error s) = "INTERNAL_SERVER_ERROR"
error_code redis_error = "INTERNAL_SERVER_ERROR"
error_code (hsm_error s) = "HSM_COMMUNICATION_ERROR"
error_code timeout_error = "TIMEOUT_ERROR"
error_code (config_error s) = "CONFIG_INVALID"
error_code (serialization_error s) = "VALIDATION_ERROR"
error_code (external_service_error s) = "EXTERNAL_SERVICE_UNAVAILABLE"
error_code (runtime_error s) = "INTERNAL_SERVER_ERROR"
error_code (internal s) = "INTERNAL_SERVER_ERROR"

unfoldable pub public_message : AppError → String
public_message (key_not_found s) = "Key not found"
public_message unauthorized = "Authentication failed"
public_message forbidden = "Forbidden"
public_message (not_found s) = "Resource not found"
public_message (validation_error s) = "Invalid request"
public_message (conflict s) = "Resource conflict"
public_message (crypto_error s) = "Cryptographic operation failed"
public_message (database_error s) = "Internal server error"
public_message redis_error = "Internal server error"
public_message (hsm_error s) = "HSM communication error"
public_message timeout_error = "Request timed out"
public_message (config_error s) = "Configuration error"
public_message (serialization_error s) = "Invalid request"
public_message (external_service_error s) = "External service unavailable"
public_message (runtime_error s) = "Internal server error"
public_message (internal s) = "Internal server error"

unfoldable pub status_code : AppError → ℕ
status_code (key_not_found s) = 404
status_code unauthorized = 401
status_code forbidden = 403
status_code (not_found s) = 404
status_code (validation_error s) = 400
status_code (conflict s) = 409
status_code (crypto_error s) = 422
status_code (database_error s) = 500
status_code redis_error = 500
status_code (hsm_error s) = 502
status_code (serialization_error s) = 400
status_code (config_error s) = 500
status_code (external_service_error s) = 502
status_code (runtime_error s) = 500
status_code (internal s) = 500
status_code timeout_error = 408

pub record ErrorResponse : Type 0 where
  pub status : ℕ
  pub code : String
  pub message : String

-- `into_response`; the request's identifier is always left out.
unfoldable pub into_response : AppError → ErrorResponse
unfolding error_code public_message status_code
into_response e = record { status = status_code e; code = error_code e; message = public_message e }
