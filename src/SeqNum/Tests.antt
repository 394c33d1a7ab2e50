-- ===== src/SeqNum/Tests.antt =====
-- The theorems about the sequence numbers at a system that answers in a fixed way.
use myfreelib.Base.{ℕ, ℤ, pos, int, some, length, [], ◌∷◌, ◌≡◌, ◌%◌, ◌^◌, refl, negsuc, ◌-◌, arith}
use myfreelib.SeqNum.Calls.{
  Call, Reply, History, read_request, write_response, read_response, open_fifo, print,
}
use myfreelib.SeqNum.Server
use myfreelib.SeqNum.Client
use myfreelib.SeqNum.Client.{last_call, signed}
use myfreelib.SeqNum.Clients.{IsServing, clients_print_their_turn}
use myfreelib.SeqNum.Blocks.{asked, answered, Apart, blocks_do_not_overlap}

abbrev returns : ℤ → Reply
returns n = record {
  ret = n;
  request = record { pid = 77; seq_len = 3 };
  response = record { seq_num = 12 };
}

-- Every request and response is whole; a request asks for 3 numbers.
abbrev fine : Call → Reply
fine (read_request fd) = returns (pos 8)
fine (write_response fd p) = returns (pos 4)
fine (read_response fd) = returns (pos 4)
fine (open_fifo name mode) = returns (pos 5)
fine c = returns (pos 0)

abbrev fine_os : History → Call → Reply
fine_os t c = fine c

four_rounds : answered (Server.main 4 fine_os []).1 ≡ 9 ∷ 6 ∷ 3 ∷ 0 ∷ []
unfolding Server.main Server.setup Server.rounds Server.round
four_rounds = refl

blocks_do_not_overlap_example :
    Apart (answered (Server.main 4 fine_os []).1) (asked (Server.main 4 fine_os []).1)
unfolding Server.main Server.setup Server.rounds Server.round
blocks_do_not_overlap_example = blocks_do_not_overlap fine_os 4 (omega arith)

-- A client with this process number, whose response is the given one.
abbrev client_of : (pid seq_num : ℕ) → Reply → Reply
client_of pid seq_num r = record {
  ret = r.ret;
  request = record { pid = pid; seq_len = 1 };
  response = record { seq_num = seq_num };
}

abbrev client_os : (pid seq_num : ℕ) → Call → Reply
client_os pid seq_num c = client_of pid seq_num (fine c)

-- The process numbers of the clients count the calls before.
abbrev many_clients : History → Call → Reply
many_clients t c = client_os (length t) 0 c

many_clients-IsServing : IsServing many_clients (λ t h c. client_os (length t) 0 c)
unfolding Client.main Client.ask
many_clients-IsServing = record { whole = λ t fd. refl; sent = λ t fd garbage. refl }

clients_print_their_turn_example :
    let (ret, u) = Client.main (record { seq_num = 9 }) (λ _ c. client_os 42 2 c) [] in
    (ret ≡ pos 0) × (last_call u ≡ some (print "%d\n" (int (signed (2 % 2 ^ 32)) ∷ [])))
unfolding Server.main Server.setup Server.rounds Server.round
clients_print_their_turn_example =
    clients_print_their_turn many_clients (λ t h c. client_os (length t) 0 c) (client_os 42 2)
      (record { seq_num = 9 }) 42 (pos 5) 4 2 many_clients-IsServing (omega arith) refl refl refl
      refl refl

-- Past 2 ^ 31 a client prints a negative number.
negative : signed (2 ^ 31) ≡ negsuc (2 ^ 31 - 1)
negative = refl
