-- ===== src/Downlink/Runs.antt =====
-- Runs of the downlink commands: a queue of two places and a table with one command.
use goster_io_t.Common.{ℕ, ◌≡◌, ◌++◌, refl, arith, true, none, some, [], ◌∷◌, take, drop}
use goster_io_t.Common.Result.{Result, ok, err}
use goster_io_t.Common.Int.{pos}
use goster_io_t.Common.Text.{Text, text, str_eq}
use goster_io_t.Common.Assoc.{lookup}
use goster_io_t.Downlink.Errors.{CommandError, command_not_found}
use goster_io_t.Downlink.Queue.{CommandQueue, Message, queue_of}
use goster_io_t.Downlink.Queue.Bounds.{behind, IsBounded}
use goster_io_t.Downlink.Queue.Fifo.{enqueue_all, newest, pull, queue_of-enqueue_all, pull-take}
use goster_io_t.Downlink.Commands.{
  CommandRow, CommandTable, is_valid_status, status_queued, status_sent, status_acked,
}
use goster_io_t.Downlink.Commands.Laws.{find_row, moved}
use goster_io_t.Downlink.Service.{requeue_command}
use goster_io_t.Downlink.Service.Memory.{memory_queue, table_repository}
use goster_io_t.Downlink.Service.Laws.{requeue_known, requeue_unknown}

abbrev lamp : Text
lamp = 108 ∷ 49 ∷ []

abbrev pump : Text
pump = 112 ∷ 49 ∷ []

abbrev message : ℕ → Message
message n = record { command_id = pos n; cmd_id = 0x0203; payload = 1 ∷ [] }

abbrev two_places : CommandQueue
two_places = record { queues = []; capacity = pos 2 }

two_places-IsBounded : IsBounded two_places
unfolding queue_of lookup
two_places-IsBounded = record { fits = λ uuid p. omega arith }

queue_of-enqueue_all_example :
    queue_of (enqueue_all two_places lamp (message 1 ∷ message 2 ∷ message 3 ∷ [])) lamp
    ≡ newest (pos 2) (queue_of two_places lamp ++ (message 1 ∷ message 2 ∷ message 3 ∷ []))
queue_of-enqueue_all_example =
    queue_of-enqueue_all two_places lamp (message 1 ∷ message 2 ∷ message 3 ∷ [])
      two_places-IsBounded

abbrev waiting : CommandQueue
waiting = record { queues = (lamp, message 1 ∷ message 2 ∷ []) ∷ []; capacity = pos 2 }

waiting-IsBounded : IsBounded waiting
unfolding queue_of lookup
waiting-IsBounded = record { fits = λ uuid p. ground arith }

pull-take_example :
    ((pull 5 waiting lamp).1 ≡ take 5 (queue_of waiting lamp))
    × (queue_of (pull 5 waiting lamp).0 lamp ≡ drop 5 (queue_of waiting lamp))
pull-take_example = pull-take 5 waiting lamp

abbrev row : CommandRow
row = record {
  id = 7;
  tenant_id = 116 ∷ [];
  uuid = lamp;
  cmd_id = 0x0203;
  command = 111 ∷ 110 ∷ [];
  payload = some (1 ∷ []);
  status = status_sent;
  error_text = none;
  executed_at = none;
}

abbrev table : CommandTable
table = record { rows = row ∷ []; next_id = 8; up = true }

found : find_row 7 table.rows ≡ some row
unfolding find_row
found = refl

missing : find_row 9 table.rows ≡ none
unfolding find_row
missing = refl

acked_valid : is_valid_status status_acked ≡ true
unfolding is_valid_status text str_eq
acked_valid = refl

abbrev no_tenant : Text → Result CommandError Text
no_tenant uuid = err command_not_found

requeue_known_example :
    (let u =
        requeue_command
          (table_repository no_tenant 500)
          memory_queue
          (table, waiting)
          lamp
          (message 7) in
      (u.1 ≡ ok tt)
      × (queue_of u.0.1 lamp ≡ message 7 ∷ behind (pos 2) (queue_of waiting lamp))
      × (find_row 7 u.0.0.rows ≡ some (moved status_queued (text "") 500 row)))
requeue_known_example =
    requeue_known no_tenant 500 table waiting lamp (message 7) 6 refl refl waiting-IsBounded row
      found

requeue_unknown_example :
    (let u =
        requeue_command
          (table_repository no_tenant 500)
          memory_queue
          (table, waiting)
          lamp
          (message 9) in
      (u.1 ≡ err command_not_found)
      × (queue_of u.0.1 lamp ≡ message 9 ∷ behind (pos 2) (queue_of waiting lamp)))
requeue_unknown_example =
    requeue_unknown no_tenant 500 table waiting lamp (message 9) 8 refl refl waiting-IsBounded
      missing
