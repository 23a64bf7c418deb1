-- ===== src/Channel/Table.antt =====
-- channel.cpp: `HdcChannelBase::AdminChannel`, the table of channels.
--
-- A channel is an object that `mapChannel` and the callers share, so the table holds handles, and `heap`
-- holds what `AdminChannel` uses of the objects. The locks make each operation one step.
pub mod Lookup
use supertools_public.Common.{
  ℕ, ◌+◌, ◌%◌, ◌^◌, Option, none, some, ◌==◌, if◌then◌else◌, Map, find, put, erase,
}

pub record HdcChannel : Type 0 where
  pub channel_id : ℕ
  pub ref : ℕ

pub record Channels : Type 0 where
  pub heap : ℕ → HdcChannel
  pub map_channel : Map ℕ

pub data ChannelOp : Type 0 where
  channel_add channel_update : ℕ → ChannelOp
  channel_remove channel_query channel_query_ref channel_print channel_other : ChannelOp

abbrev pub refer : ℕ → Channels → Channels
refer h t = record t {
  heap =
      λ k. if k == h then record (t.heap h) { ref = ((t.heap h).ref + 1) % 2 ^ 32 } else t.heap k;
}

abbrev pub query_channel_ref : Option ℕ → Channels → Option ℕ × Channels
query_channel_ref none t = (none, t)
query_channel_ref (some h) t = (some h, refer h t)

-- `PrintChannel` only logs.
unfoldable pub admin_channel : ChannelOp → ℕ → Channels → Option ℕ × Channels
admin_channel channel_print k t = (none, t)
admin_channel (channel_add h) k t = (none, record t { map_channel = put k h t.map_channel })
admin_channel channel_remove k t = (none, record t { map_channel = erase k t.map_channel })
admin_channel channel_query k t = (find k t.map_channel, t)
admin_channel channel_query_ref k t = query_channel_ref (find k t.map_channel) t
admin_channel (channel_update h) k t =
    (none, record t { map_channel = put (t.heap h).channel_id h (erase k t.map_channel) })
admin_channel channel_other k t = (none, t)
