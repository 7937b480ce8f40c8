-- ===== src/Client/Errors.antt =====
-- How the errors of the client library are shown, crates/cm108-client/src/lib.rs. How an error of the
-- system is shown is a parameter.
use cm108_driver_rust.Base.{◌++◌}
use cm108_driver_rust.Types.{Text}
use cm108_driver_rust.Main.{codes}
use cm108_driver_rust.Io.{ErrorKind}
use cm108_driver_rust.Client.{ClientError, io_failed, protocol, disconnected}

unfoldable pub display_client : (ErrorKind → Text) → ClientError → Text
display_client show_io (io_failed e) = codes "IO error: " ++ show_io e
display_client show_io (protocol s) = codes "protocol error: " ++ s
display_client show_io disconnected = codes "server disconnected"
