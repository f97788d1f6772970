-- ===== src/Notify/ChannelKey.antt =====
-- src/notify/channel_key.cpp: the string under which a channel of a tenant scope is registered.
pub mod Injective
use mtdd_server.Base.{Bytes, codes, is_empty, if◌then◌else◌, ◌++◌, ◌∷◌, []}

-- kGlobalTidScope
abbrev pub global_tid_scope : Bytes
global_tid_scope = codes "__global__"

unfoldable pub normalize_tid_scope : Bytes → Bytes
normalize_tid_scope tid_scope = if is_empty tid_scope then global_tid_scope else tid_scope

unfoldable pub channel_key : Bytes → Bytes → Bytes
unfolding normalize_tid_scope
channel_key channel tid_scope = normalize_tid_scope tid_scope ++ b':' ∷ channel
