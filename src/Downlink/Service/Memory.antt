-- ===== src/Downlink/Service/Memory.antt =====
-- The implementations that the program puts together: the table and the queue in memory.
use goster_io_t.Common.{ℕ}
use goster_io_t.Common.Result.{Result, ok, err}
use goster_io_t.Common.Text.{Text}
use goster_io_t.Downlink.Errors
use goster_io_t.Downlink.Errors.{CommandError}
use goster_io_t.Downlink.Queue
use goster_io_t.Downlink.Queue.{CommandQueue, QueueError, queue_full, Message}
use goster_io_t.Downlink.Commands.{
  CommandTable, create_device_command_by_tenant, update_device_command_status,
}
use goster_io_t.Downlink.Service.{CommandRepository, DeviceCommandQueue}

abbrev pub as_command_error :
    CommandQueue × Result QueueError (Unit {0}) → CommandQueue × Result CommandError (Unit {0})
as_command_error (q, ok u) = (q, ok u)
as_command_error (q, err queue_full) = (q, err Errors.queue_full)

abbrev pub memory_queue : DeviceCommandQueue CommandQueue
memory_queue = record {
  enqueue = λ q uuid message. as_command_error (Queue.enqueue q uuid message);
  requeue = λ q uuid message. as_command_error (Queue.requeue q uuid message);
  dequeue = λ q uuid. let (q', message) = Queue.dequeue q uuid in (q', ok message);
}

abbrev pub table_repository : (Text → Result CommandError Text) → ℕ → CommandRepository CommandTable
table_repository resolve now = record {
  create = create_device_command_by_tenant resolve;
  update_status = update_device_command_status now;
}
