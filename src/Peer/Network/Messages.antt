-- ===== src/Peer/Network/Messages.antt =====
-- What the messages on their way to a peer, or published by it, say in the end.
use zmqtests.Base.{
  ◌≡◌, refl, Bool, true, false, ◌&&◌, ◌||◌, List, [], ◌∷◌, ◌++◌, ◌==◌, if◌then◌else◌, arith,
}
use zmqtests.Base.Text.{Bytes, str_eq}
use zmqtests.Zmq.{ConnectMsg}
use zmqtests.Peer.Table.{bytes_key, Peers, connect_command, disconnect_command}
use zmqtests.Peer.Issue3186.Directory.{track, peers_after, lookup-peers_after}
use zmqtests.Peer.Network.{known, takes_leave}

-- A connect message of the uuid.
abbrev pub is_hello_of : Bytes → ConnectMsg → Bool
is_hello_of u m = (m.command == connect_command) && str_eq m.uuid u

unfoldable pub told : Bytes → List ConnectMsg → Bool
told u [] = false
told u (m ∷ ms) = is_hello_of u m || told u ms

pub told-append :
    (u : Bytes) (xs ys : List ConnectMsg) → told u (xs ++ ys) ≡ (told u xs || told u ys)
unfolding told
told-append u [] ys = refl
told-append u (x ∷ xs) ys = ground (arith, told-append u xs ys)

pub takes_leave-append :
    (xs ys : List ConnectMsg) → takes_leave (xs ++ ys) ≡ (takes_leave xs || takes_leave ys)
unfolding takes_leave
takes_leave-append [] ys = refl
takes_leave-append (x ∷ xs) ys = ground (arith, takes_leave-append xs ys)

-- Whether a table has the uuid behind a message, and behind the messages of a list.
abbrev pub keeps : Bytes → ConnectMsg → Bool → Bool
keeps u m b =
    if str_eq m.uuid u
    then (if m.command == connect_command
        then true
        else if m.command == disconnect_command
        then false
        else b)
    else b

unfoldable pub expected : Bytes → Bool → List ConnectMsg → Bool
expected u b [] = b
expected u b (m ∷ ms) = expected u (keeps u m b) ms

pub expected-append :
    (u : Bytes) (b : Bool) (xs ys : List ConnectMsg)
    → expected u b (xs ++ ys) ≡ expected u (expected u b xs) ys
unfolding expected
expected-append u b [] ys = refl
expected-append u b (x ∷ xs) ys = expected-append u (keeps u x b) xs ys

pub known-peers_after :
    (m : ConnectMsg) (peers : Peers) (u : Bytes)
    → known u (peers_after m peers) ≡ keeps u m (known u peers)
unfolding track
known-peers_after m peers u = ground (arith, lookup-peers_after m peers u)

-- Whether the last message of a list is a disconnect message; `b` for the empty one.
unfoldable pub parts : Bool → List ConnectMsg → Bool
parts b [] = b
parts b (m ∷ ms) = parts (m.command == disconnect_command) ms

pub parts-append : (b : Bool) (xs ys : List ConnectMsg) → parts b (xs ++ ys) ≡ parts (parts b xs) ys
unfolding parts
parts-append b [] ys = refl
parts-append b (x ∷ xs) ys = parts-append (x.command == disconnect_command) xs ys

-- A list that ends in a disconnect message has one.
pub takes_leave-parts :
    (b : Bool) (ms : List ConnectMsg) → parts b ms ≡ true → (b || takes_leave ms) ≡ true
unfolding parts takes_leave
takes_leave-parts b [] h = ground (arith, h)
takes_leave-parts b (m ∷ ms) h =
    ground (arith, takes_leave-parts (m.command == disconnect_command) ms h)
