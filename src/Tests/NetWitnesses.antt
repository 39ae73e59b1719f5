-- ===== src/Tests/NetWitnesses.antt =====
-- The theorems on connections at concrete machines.
use integer_java_virtual_mac.Base.{
  ◌%◌, ◌≡◌, ◌==◌, refl, true, false, [], ◌∷◌, some, none, if◌then◌else◌, arith,
}
use integer_java_virtual_mac.Base.Word.{minus_one, sext8}
use integer_java_virtual_mac.Refs.{net_tag, index_to_ref, is_ref, ref_to_index}
use integer_java_virtual_mac.Machine.{
  Vm, Sock, ok, exit, socket, connect, send, recv, bad_sent, bad_received,
}
use integer_java_virtual_mac.Net.{net_bind, net_connect, net_send, net_recv}
use integer_java_virtual_mac.Net.Close.{Connects}
use integer_java_virtual_mac.Net.Destroy.{logged}
use integer_java_virtual_mac.Net.Data.{after, net_send-net_recv}
use integer_java_virtual_mac.Net.Connect.{
  HasRoom, fresh, holding, net_connect_lem, bound, net_bind_lem,
}
use integer_java_virtual_mac.Tests.Programs.{machine}

-- Sixteen slots, the first of them in use by a client, and an operating system that answers 4.
abbrev client_sock : Sock
client_sock = record {
  fd = 7;
  fds = minus_one;
  client = true;
  server = false;
  addr = record { host = 1; port = 80 };
}

abbrev one_client : Vm
one_client =
    let s = machine [] [] in
    record s {
      net_conn = record {
        size = 16;
        map = λ i. i == 0;
        values = λ i. if i == 0 then some client_sock else none;
      };
      network = record {
        replies = λ _. record { status = 4; byte = 200; peer = record { host = 9; port = 90 } };
        given = 0;
        calls = [];
      };
    }

one_client-Connects : Connects one_client 0xcc00_000c client_sock
unfolding is_ref ref_to_index
one_client-Connects = record {
  format = refl;
  in_range = omega arith;
  in_use = refl;
  held = refl;
  one_side = refl;
}

net_send-net_recv_example :
    (net_send 0xcc00_000c 65 one_client ≡ (
      if 4 == 4
      then ok tt (after one_client (send 7 65))
      else exit bad_sent (after one_client (send 7 65))))
    × (net_recv 0xcc00_000c one_client ≡ (
        if 4 == 1
        then ok (sext8 200) (after one_client (recv 7))
        else exit bad_received (after one_client (recv 7))))
net_send-net_recv_example =
    net_send-net_recv one_client 0xcc00_000c client_sock one_client-Connects 65

one_client-HasRoom : HasRoom one_client 1
one_client-HasRoom = record {
  lowest = record {
    from = omega arith;
    inside = omega arith;
    free = refl;
    lowest = λ j low lt. ground arith;
  };
  small = omega arith;
  few = omega arith;
  allocates = refl;
}

net_connect_lem_example :
    net_connect 3 0x10050 one_client
    ≡ ok (if 4 == minus_one then 0 else index_to_ref net_tag 1) (
        holding one_client 1
          (if 4 == minus_one
            then fresh 4 3 (0x10050 % 0x10000)
            else record (fresh 4 3 (0x10050 % 0x10000)) { client = true })
          (logged one_client.network
            (socket ∷ connect 4 (record { host = 3; port = 0x10050 % 0x10000 }) ∷ [])))
net_connect_lem_example = net_connect_lem one_client 1 one_client-HasRoom 3 0x10050

net_bind_lem_example :
    net_bind 80 one_client ≡ ok (bound one_client 1 80).0 (bound one_client 1 80).1
net_bind_lem_example = net_bind_lem one_client 1 one_client-HasRoom 80
