-- ===== src/Client/Connect.antt =====
-- How a client connects: `Cm108Client::connect` and `recv_fd` of crates/cm108-client/src/client.rs,
-- and `send_fd` of crates/cm108-server/src/ipc.rs. The outcomes of the system calls are arguments; an
-- error of one is none.
use cm108_driver_rust.Base.{
  ℕ, ◌≡◌, refl, ap, ◌∙◌, Bool, true, false, ◌&&◌, List, [], ◌∷◌, ◌++◌, Option, none, some, ◌==◌,
  if◌then◌else◌, if-true, if-false, All,
}
use cm108_driver_rust.Io.{other, Input, Sink}
use cm108_driver_rust.Client.{io_failed, protocol, ClientResult, returns, refuses}
use cm108_driver_rust.Client.Interface.{Cm108Client}
use cm108_driver_rust.Main.{codes}

abbrev sol_socket : ℕ
sol_socket = 1

abbrev scm_rights : ℕ
scm_rights = 1

-- A control message with its descriptor, and what a call of sendmsg or recvmsg carries.
pub record ControlMessage : Type 0 where
  pub cmsg_level : ℕ
  pub cmsg_type : ℕ
  pub descriptor : ℕ

pub record MessageHeader : Type 0 where
  pub payload : List ℕ
  pub control : List ControlMessage

-- What `send_fd` hands to sendmsg.
unfoldable pub send_fd : ℕ → MessageHeader
send_fd fd = record {
  payload = 0 ∷ [];
  control = record { cmsg_level = sol_socket; cmsg_type = scm_rights; descriptor = fd } ∷ [];
}

abbrev pub carries_rights : ControlMessage → Bool
carries_rights c = c.cmsg_level == sol_socket && c.cmsg_type == scm_rights

-- The loop over the control messages.
unfoldable pub first_rights : List ControlMessage → Option ℕ
first_rights [] = none
first_rights (c ∷ cs) =
    let rest = first_rights cs in if carries_rights c then some c.descriptor else rest

abbrev pub as_descriptor : Option ℕ → ClientResult ℕ
as_descriptor none = refuses (protocol (codes "server did not send shmem fd on connect"))
as_descriptor (some fd) = returns fd

unfoldable pub recv_fd : Option MessageHeader → ClientResult ℕ
recv_fd none = refuses (io_failed other)
recv_fd (some m) = as_descriptor (first_rights m.control)

-- The rest of `connect`, with the descriptor; `maps` says whether it can be mapped.
abbrev pub with_mapping : Sink → Input → (ℕ → Bool) → ClientResult ℕ → ClientResult Cm108Client
with_mapping w s maps (refuses e) = refuses e
with_mapping w s maps (returns fd) =
    if maps fd
    then returns (record { writer = w; reader = s; last_seq = 0 })
    else refuses (io_failed other)

-- `connect`, with the stream, its clone and what recvmsg brings.
unfoldable pub connect :
    Option Sink → Option Input → Option MessageHeader → (ℕ → Bool) → ClientResult Cm108Client
connect none reader hello maps = refuses (io_failed other)
connect (some w) none hello maps = refuses (io_failed other)
connect (some w) (some s) hello maps = with_mapping w s maps (recv_fd hello)

first_rights_behind :
    (before after : List ControlMessage) (fd : ℕ)
    → All (λ c. carries_rights c ≡ false) before
    → first_rights (before ++ (send_fd fd).control ++ after) ≡ some fd
unfolding first_rights send_fd
first_rights_behind [] after fd all = refl
first_rights_behind (c ∷ cs) after fd (h, all) =
    if-false _ _ h ∙ first_rights_behind cs after fd all

-- A client whose first message brings what the server's `send_fd` sent, among whatever other control
-- messages before and after it, is connected with that descriptor, if it can be mapped, and has seen
-- no notice yet.
pub connect-send_fd :
    (w : Sink) (s : Input) (maps : ℕ → Bool) (fd : ℕ) (bytes : List ℕ)
    (before after : List ControlMessage)
    → All (λ c. carries_rights c ≡ false) before
    → maps fd ≡ true
    → connect
        (some w)
        (some s)
        (some (record { payload = bytes; control = before ++ (send_fd fd).control ++ after }))
        maps
      ≡ returns (record { writer = w; reader = s; last_seq = 0 })
unfolding connect recv_fd
connect-send_fd w s maps fd bytes before after all h =
    ap (λ o. with_mapping w s maps (as_descriptor o)) (first_rights_behind before after fd all)
    ∙ if-true _ _ h
