-- ===== src/AuthClient.antt =====
-- server/src/auth_client.c. What the network does is a parameter: the outcome of each attempt to
-- reach a host, and what `read` returns for a request (no byte for an error or an end of file).
pub mod Outcome
use iot_monitoring_system.Base.{
  ℕ, ◌-◌, List, [], ◌∷◌, ◌++◌, Bytes, codes, c_str, snprintf, strn_eq, take, drop, ℤ, pos, negsuc,
  Bool, true, false, ◌||◌, ◌==◌, if◌then◌else◌,
}

-- How far an attempt at one of `auth_hosts` gets: `socket` fails, the address is not found,
-- `connect` fails, or the connection stands.
pub data Attempt : Type 0 where
  no_socket no_address refused connected : Attempt

pub record Network : Type 0 where
  -- the host `auth-service`, then 127.0.0.1
  pub docker_host : Attempt
  pub local_host : Attempt
  pub answer : Bytes → Bytes

pub data SocketCall : Type 0 where
  opens closes : SocketCall

-- What the loop over the hosts ends with: the early `return -1`, a connection, or neither, with
-- the last socket still open.
pub data Reached : Type 0 where
  aborted connection nothing : Reached

-- The loop over the hosts; the flag tells whether `sock >= 0`.
unfoldable pub connect_loop : Bool → List Attempt → Reached × List SocketCall
connect_loop sock [] = (nothing, [])
connect_loop sock (a ∷ attempts) =
    let close_old = if sock then closes ∷ [] else [] in
    let later = connect_loop true attempts in
    elim a [
      | no_socket ↦ (aborted, close_old)
      | no_address ↦ (later.0, close_old ++ opens ∷ later.1)
      | refused ↦ (later.0, close_old ++ opens ∷ later.1)
      | connected ↦ (connection, close_old ++ opens ∷ [])
    ]

-- `strpbrk(role_buffer, "\r\n")` and the NUL written there
unfoldable pub cut_newline : Bytes → Bytes
cut_newline [] = []
cut_newline (c ∷ cs) = if c == b'\r' || c == b'\n' then [] else c ∷ cut_newline cs

-- "%s:%s\n" into `request[256]`
abbrev pub auth_request : Bytes → Bytes → Bytes
auth_request username password = snprintf 256 (username ++ (b':' ∷ (password ++ b'\n' ∷ [])))

-- The role in an answer to a buffer of `buffer_size` bytes, or the result 0.
unfoldable pub read_role : Bytes → ℕ → ℤ × Bytes
unfolding cut_newline
read_role received buffer_size =
    if strn_eq 5 (c_str received) (codes "ROLE:")
    then (pos 1, cut_newline (take (buffer_size - 1) (drop 5 (c_str received))))
    else (pos 0, [])

-- The result, the string in `role_buffer` when it is 1, and the socket calls. `read` takes at most
-- 1023 bytes of the answer.
unfoldable pub auth_client_verify : Network → Bytes → Bytes → ℕ → ℤ × Bytes × List SocketCall
auth_client_verify net username password buffer_size =
    let (reached, calls) = connect_loop false (net.docker_host ∷ net.local_host ∷ []) in
    elim reached [
      | aborted ↦ (negsuc 0, [], calls)
      | nothing ↦ (negsuc 0, [], calls ++ closes ∷ [])
      | connection ↦
          let (result, role) =
            read_role (take 1023 (net.answer (auth_request username password))) buffer_size in
          (result, role, calls ++ closes ∷ [])
    ]
