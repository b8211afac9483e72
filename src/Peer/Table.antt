-- ===== src/Peer/Table.antt =====
-- What the two peer programs share: the table of known peers, a `map<string, string>` from uuid
-- to endpoint, and the copy of two C strings into a `connectMsg` of the common.h files.
use zmqtests.Base.{ℕ, ◌+◌, Bool, ◌&&◌, List, length, ltb}
use zmqtests.Base.Table.{Key}
use zmqtests.Base.Text.{Bytes, str_eq, str_eq_iff}

instance abbrev pub bytes_key : Key Bytes
bytes_key = record { same = str_eq; same_iff = str_eq_iff }

abbrev pub Peers : Type 0
Peers = List (Bytes × Bytes)

abbrev pub uuid_string_size : ℕ
uuid_string_size = 36

abbrev pub zmq_max_endpoint_length : ℕ
zmq_max_endpoint_length = 256

-- Both strings fit their arrays, with the closing zero byte. Where they do not, `strcpy` writes
-- past the array, and the program has no meaning: the model aborts.
unfoldable pub strings_fit : Bytes → Bytes → Bool
strings_fit uuid endpoint =
    ltb (length uuid) (uuid_string_size + 1) && ltb (length endpoint) (zmq_max_endpoint_length + 1)

abbrev pub connect_command : ℕ
connect_command = b'C'

abbrev pub disconnect_command : ℕ
disconnect_command = b'D'

abbrev pub welcome_command : ℕ
welcome_command = b'W'
