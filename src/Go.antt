-- ===== src/Go.antt =====
-- What the services use of Go and of the packages they import: error values (the standard library's
-- `errors` and `fmt.Errorf`), functions that return an error, the UUID package, the transaction
-- manager and the gRPC status. The packages are parameters of the model, with their documented laws.
mod Errors
mod Results
mod Packages
pub use Errors.*
pub use Results.*
pub use Packages.*
unfoldable pub use Errors.{is, error_text}
