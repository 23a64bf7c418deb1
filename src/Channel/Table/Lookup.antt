-- ===== src/Channel/Table/Lookup.antt =====
-- channel.cpp: `AdminChannel` on the table of channels as a function of the id.
use supertools_public.Common.{
  ℕ, ◌+◌, ◌%◌, ◌^◌, ◌<◌, ◌≡◌, refl, sym, ◌∙◌, Option, none, some, arith, ◌==◌, if◌then◌else◌, find,
  erase, Sorted, Sorted-put, Sorted-erase, find-put, find-erase,
}
use supertools_public.Channel.Table.{
  Channels, ChannelOp, channel_add, channel_update, channel_remove, channel_query,
  channel_query_ref, channel_print, channel_other, query_channel_ref, admin_channel,
}

-- What an operation on channel `k` promises: what it returns, the table that it leaves and the references
-- that it adds, as functions of the ids and of the objects.
pub record Promise : Type 0 where
  pub returned : Option ℕ
  pub table : ℕ → Option ℕ
  pub added : ℕ → ℕ

abbrev pub same : (ℕ → Option ℕ) → Option ℕ → Promise
same old o = record { returned = o; table = old; added = λ h. 0 }

abbrev holds : Option ℕ → ℕ → ℕ
holds none h = 0
holds (some k) h = if h == k then 1 else 0

abbrev pub promise : ChannelOp → ℕ → (ℕ → ℕ) → (ℕ → Option ℕ) → Promise
promise (channel_add h) k id old = record {
  returned = none;
  table = λ j. if j == k then some h else old j;
  added = λ i. 0;
}
promise (channel_update h) k id old = record {
  returned = none;
  table = λ j. if j == id h then some h else if j == k then none else old j;
  added = λ i. 0;
}
promise channel_remove k id old = record {
  returned = none;
  table = λ j. if j == k then none else old j;
  added = λ i. 0;
}
promise channel_query k id old = same old (old k)
promise channel_query_ref k id old = record {
  returned = old k;
  table = old;
  added = λ i. holds (old k) i;
}
promise channel_print k id old = same old none
promise channel_other k id old = same old none

-- A result and a state that keep a promise.
pub record Keeps (p : Promise) (t : Channels) (r : Option ℕ × Channels) : Type 0 where
  pub returns : r.0 ≡ p.returned
  pub sorted : Sorted r.1.map_channel
  pub tables : (j : ℕ) → find j r.1.map_channel ≡ p.table j
  pub refers : (h : ℕ) → (r.1.heap h).ref ≡ ((t.heap h).ref + p.added h) % 2 ^ 32

-- A count of references is a `uint32_t`.
abbrev pub IsChannels : Channels → Type 0
IsChannels t = Sorted t.map_channel × ((h : ℕ) → (t.heap h).ref < 2 ^ 32)

unchanged : (t : Channels) (h : ℕ) → IsChannels t → (t.heap h).ref ≡ ((t.heap h).ref + 0) % 2 ^ 32
unchanged t h ok = omega (arith, ok.1 h)

query_ref-Keeps :
    (k : ℕ) (id : ℕ → ℕ) (old : ℕ → Option ℕ) (o : Option ℕ) (t : Channels)
    → IsChannels t
    → o ≡ old k
    → ((j : ℕ) → find j t.map_channel ≡ old j)
    → Keeps (promise channel_query_ref k id old) t (query_channel_ref o t)
query_ref-Keeps k id old none t ok e f = record {
  returns = e;
  sorted = ok.0;
  tables = f;
  refers = λ h. rw (sym e) (unchanged t h ok);
}
query_ref-Keeps k id old (some g) t ok e f = record {
  returns = e;
  sorted = ok.0;
  tables = f;
  refers = λ h. rw (sym e) (ground (arith, ok.1 h, ok.1 g));
}

-- Each operation of `AdminChannel` does to the table what is promised of a partial function from ids to
-- channels, leaves the table in the order of its keys, returns what is promised, and adds a reference to
-- the channel that a query with a reference finds and to no other one.
pub admin_channel-Keeps :
    (op : ChannelOp) (k : ℕ) (t : Channels)
    → IsChannels t
    → Keeps
        (promise op k (λ h. (t.heap h).channel_id) (λ j. find j t.map_channel))
        t
        (admin_channel op k t)
unfolding admin_channel
admin_channel-Keeps (channel_add g) k t ok = record {
  returns = refl;
  sorted = Sorted-put k g t.map_channel ok.0;
  tables = λ j. find-put k j g t.map_channel;
  refers = λ h. unchanged t h ok;
}
admin_channel-Keeps (channel_update g) k t ok =
    let id = (t.heap g).channel_id in
    record {
      returns = refl;
      sorted = Sorted-put id g (erase k t.map_channel) (Sorted-erase k t.map_channel ok.0);
      tables = λ j. find-put id j g (erase k t.map_channel) ∙ rw (find-erase k j t.map_channel);
      refers = λ h. unchanged t h ok;
    }
admin_channel-Keeps channel_remove k t ok = record {
  returns = refl;
  sorted = Sorted-erase k t.map_channel ok.0;
  tables = λ j. find-erase k j t.map_channel;
  refers = λ h. unchanged t h ok;
}
admin_channel-Keeps channel_query k t ok = record {
  returns = refl;
  sorted = ok.0;
  tables = λ j. refl;
  refers = λ h. unchanged t h ok;
}
admin_channel-Keeps channel_query_ref k t ok =
    query_ref-Keeps k (λ h. (t.heap h).channel_id) (λ j. find j t.map_channel)
      (find k t.map_channel) t ok refl (λ j. refl)
admin_channel-Keeps channel_print k t ok = record {
  returns = refl;
  sorted = ok.0;
  tables = λ j. refl;
  refers = λ h. unchanged t h ok;
}
admin_channel-Keeps channel_other k t ok = record {
  returns = refl;
  sorted = ok.0;
  tables = λ j. refl;
  refers = λ h. unchanged t h ok;
}
