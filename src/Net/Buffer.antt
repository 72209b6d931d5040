-- ===== src/Net/Buffer.antt =====
-- `NetBuffer` and `NetBufferView` of net_module/net_define.h and net_define.cpp: who owns a block of
-- memory.
use new_rpc.Base.{ℕ, Bool, true, false, ◌==◌, if◌then◌else◌}
use new_rpc.Serialization.Memory.{Result, ok, undefined}

-- Whether a block of the heap is allocated, by its address.
abbrev pub Blocks : Type 0
Blocks = ℕ → Bool

abbrev pub set_block : Blocks → ℕ → Bool → Blocks
set_block h p b q = if p == q then b else h q

pub record NetBuffer : Type 0 where
  pub buffer : ℕ
  pub buffer_len : ℕ

-- `NetBuffer()`
unfoldable pub empty_buffer : NetBuffer
empty_buffer = record { buffer = 0; buffer_len = 0 }

-- `NetBuffer(size)`, with the address that `new` gives.
unfoldable pub make_buffer : Blocks → (address size : ℕ) → Blocks × NetBuffer
make_buffer h address size =
    (set_block h address true, record { buffer = address; buffer_len = size })

-- `~NetBuffer`; to delete a block that is not allocated is undefined.
unfoldable pub destroy_buffer : Blocks → NetBuffer → Result Blocks
destroy_buffer h b =
    if b.buffer == 0
    then ok h
    else if h b.buffer
    then ok (set_block h b.buffer false)
    else undefined

-- `NetBuffer(NetBuffer &&)`: the new buffer and what is left of the old one.
unfoldable pub move_buffer : NetBuffer → NetBuffer × NetBuffer
move_buffer rhs = (rhs, record { buffer = 0; buffer_len = 0 })

-- `operator=(NetBuffer &&)`: a new object is made over the left side, whose block is not deleted.
unfoldable pub assign_buffer : (same : Bool) → (self rhs : NetBuffer) → NetBuffer × NetBuffer
unfolding move_buffer
assign_buffer same self rhs = if same then (self, rhs) else move_buffer rhs

pub record NetBufferView : Type 0 where
  pub buffer : ℕ
  pub buffer_len : ℕ

-- `NetBufferView(NetBuffer &)`: the same block, which it does not own.
unfoldable pub view_of : NetBuffer → NetBufferView
view_of b = record { buffer = b.buffer; buffer_len = b.buffer_len }
