-- ===== src/Tests/Plugin/Commands.antt =====
-- Runs of the waits and of DEL of cmd/multus-multivpc-cni/main.go.
pub mod Add
mod Stored
use multus_multivpc_cni.Base.{
  ℕ, zero, suc, Bool, ◌<◌, Text, text, text_eq, nat_eq, true, false, Option, none, some, List, [],
  ◌∷◌, ok, err, ◌==◌, if◌then◌else◌, ◌≡◌, ◌≢◌, ◌↔◌, refl, arith,
}
use multus_multivpc_cni.Base.Dict.{lookup, insert}
use multus_multivpc_cni.Agent.Messages.{GetStatusRequest, InterfaceState}
use multus_multivpc_cni.Agent.Handlers.{report_response, release_response}
use multus_multivpc_cni.Base.Int.{pos, is_positive}
use multus_multivpc_cni.Plugin.Times.{poll_interval}
use multus_multivpc_cni.Plugin.Calls.{
  Host, out_of_fuel, ticker_panic, is_usable, status_request, poll_attached_state,
  wait_for_attached_state, wait_for_host_interface,
}
use multus_multivpc_cni.Plugin.Calls.Laws.{
  HasDeadline, IsLink, wait_for_attached_state_lem, wait_for_host_interface_lem,
}
use multus_multivpc_cni.Plugin.Names.{match_container}
use multus_multivpc_cni.Plugin.Names.Laws.{}
use multus_multivpc_cni.Plugin.Cache.{CacheEntry, FileSystem, read_cache_entry, read_entry}
use multus_multivpc_cni.Plugin.Cache.Laws.{IsCache, first_match}
use multus_multivpc_cni.Plugin.Conf.{}
use multus_multivpc_cni.Plugin.Conf.Laws.{}
use multus_multivpc_cni.Plugin.Conf.{PluginConf, with_defaults, load_config}
use multus_multivpc_cni.Plugin.Delete.{World, load_conf, cmd_del}
use multus_multivpc_cni.Plugin.Delete.Laws.{IsDeleted, cmd_del_lem}
use multus_multivpc_cni.Plugin.Delegates.{run_delegate_del_chain}
use multus_multivpc_cni.Plugin.Delegates.Chain.{}
use multus_multivpc_cni.Tests.Plugin.{entry, codec, cni, empty_conf}

abbrev web_state : InterfaceState
web_state = record {
  pod_uid = text "uid-1";
  pod_name = text "web";
  namespace = text "default";
  network_profile = text "green";
  eni_id = text "eni-1";
  ipv4_addresses = [];
  ipv6_addresses = [];
  status = text "attached";
  interface_name = text "net1";
  mac_address = text "02:00";
}

abbrev tick : ℕ → Option Text × ℕ
tick zero = (some (text "deadline exceeded"), zero)
tick (suc s) = (none, s)

-- The state is the number of ticks before the context's end; the agent answers once there are two.
abbrev host : Host
host = record {
  State = ℕ;
  Error = Text;
  Context = Unit {0};
  report_interface = λ req s. (ok (report_response true), s);
  release_interface = λ req s. (ok (release_response true), s);
  get_status = λ req s.
      (ok (record { interfaces = if s == 2 then web_state ∷ [] else []; warnings = [] }), s);
  parse_mac = λ mac. ok mac;
  link_list =
      λ s. (ok (none ∷ some (record { name = text "eth1"; hardware_addr = text "02:00" }) ∷ []), s);
  link_set_up = λ attrs s. (ok tt, s);
  wait_tick = λ ctx s. tick s;
}

tick_fewer : (s : ℕ) → (tick s).0 ≡ none → (tick s).1 < s
tick_fewer zero e = ground arith
tick_fewer (suc s) e = omega arith

abbrev host-HasDeadline : HasDeadline host
host-HasDeadline = record {
  ticks = λ ctx s. s;
  fewer = λ ctx s e. tick_fewer s e;
  ticks-get_status = λ ctx req s. omega arith;
  ticks-link_list = λ ctx s. omega arith;
}

abbrev asked : GetStatusRequest
asked = status_request (text "uid-1") (text "net1") (text "green")

wait_for_attached_state_lem_example :
    let r = (wait_for_attached_state host 4 tt asked (pos 500_000_000) 3).0 in
    (r ≢ err out_of_fuel)
    × ((r ≡ err ticker_panic) ↔ (is_positive (pos 500_000_000) ≡ false))
    × ((st : InterfaceState) → r ≡ ok st → is_usable st ≡ true)
wait_for_attached_state_lem_example =
    wait_for_attached_state_lem host host-HasDeadline 4 tt asked (pos 500_000_000) 3 (omega arith)

-- The second look finds the state.
attached_at_last : wait_for_attached_state host 4 tt asked (pos 500_000_000) 3 ≡ (ok web_state, 2)
unfolding wait_for_attached_state poll_attached_state nat_eq text_eq
attached_at_last = refl

wait_for_host_interface_lem_example :
    let r = (wait_for_host_interface host 4 tt (text "02:00") (pos 500_000_000) 3).0 in
    (r ≢ err out_of_fuel)
    × (is_positive (pos 500_000_000) ≡ true → r ≢ err ticker_panic)
    × ((name : Text)
        → r ≡ ok name
        → (target : Text) × (host.parse_mac (text "02:00") ≡ ok target) × IsLink host target name)
wait_for_host_interface_lem_example =
    wait_for_host_interface_lem host host-HasDeadline 4 tt (text "02:00") (pos 500_000_000) 3
      (omega arith)

-- A disk of one cached result that can be removed; the state tells whether it is still there.
abbrev one_file : FileSystem
one_file = record {
  State = Bool;
  Error = Text;
  mkdir_all = λ dir s. (ok tt, s);
  read_dir = λ dir s. (ok (if s then text "a" ∷ [] else []), s);
  read_file = λ dir name s. (ok (text "net1"), s);
  write_file = λ dir name bytes s. (err (text "read only"), s);
  remove = λ dir name s. (ok tt, false);
  is_not_exist = λ e. false;
}

abbrev one_entry : List (Text × CacheEntry)
one_entry = (text "a", entry (text "net1")) ∷ []

-- The file, the delegates' calls and the agent's ticks; the agent cannot be dialled.
abbrev world : World
world = record {
  State = Bool × (ℕ × ℕ);
  host = host;
  cni = cni;
  fs = one_file;
  codec = codec;
  host_of = λ (f, (c, h)). h;
  with_host = λ h (f, (c, _)). (f, (c, h));
  cni_of = λ (f, (c, h)). c;
  with_cni = λ c (f, (_, h)). (f, (c, h));
  fs_of = λ (f, (c, h)). f;
  with_fs = λ f (_, (c, h)). (f, (c, h));
  ConfError = Text;
  unmarshal = λ stdin. ok empty_conf;
  unmarshal_map = λ stdin. ok none;
  new_client = λ target s. (false, s);
  with_timeout = λ parent timeout s. tt;
}

one_file-IsCache : (dir : Text) → IsCache one_file codec dir true one_entry
unfolding read_entry
one_file-IsCache dir = record { listed = refl; readable = (refl, tt) }

abbrev del_conf : PluginConf (Unit {0})
del_conf = with_defaults (text "1.0.0") empty_conf

del_conf_loaded : load_conf world (text "{}") ≡ ok del_conf
unfolding load_conf load_config
del_conf_loaded = refl

del_conf_ticks : is_positive (poll_interval del_conf) ≡ true
unfolding poll_interval with_defaults
del_conf_ticks = refl

cmd_del_lem_example :
    IsDeleted world 4 del_conf
      (first_match (text "c1") one_entry)
      (true, (0, 3))
      (cmd_del world 4 (text "{}") (text "c1") (true, (0, 3)))
cmd_del_lem_example =
    cmd_del_lem world 4 (text "{}") (text "c1") (true, (0, 3)) del_conf one_entry del_conf_loaded
      del_conf_ticks refl (one_file-IsCache del_conf.cache_dir)

-- Both delegates are called and the file is gone, though the agent cannot be reached.
deleted : cmd_del world 4 (text "{}") (text "c1") (true, (0, 3)) ≡ (ok tt, (false, (2, 3)))
unfolding cmd_del load_config read_cache_entry run_delegate_del_chain text_eq lookup insert
    match_container
deleted = refl
