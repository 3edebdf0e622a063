-- ===== src/Clients/Etcd/Calls.antt =====
-- clients/etcd_client.cc: the calls of the client, one for each operation of etcd.
use sim_search.Prelude.{Bool}
use sim_search.External.Http.{Http, Conversion}
use sim_search.Clients.Etcd.{
  EtcdClient, EtcdOps, range, delete_range, txn, compact, lease_grant, lease_revoke, lease_ttl,
  lease_leases, lease_keepalive, etcd_op,
}
use sim_search.Clients.Etcd

module _ {W Req Resp : Type 0} (http : Http W) (json : Conversion Req Resp) (c : EtcdClient) where
  unfoldable pub call_put : Req → Resp → W → Bool × Resp × W
  unfolding etcd_op
  call_put request response w = etcd_op http json c.chan_list Etcd.put request response w

  unfoldable pub call_range : Req → Resp → W → Bool × Resp × W
  unfolding etcd_op
  call_range request response w = etcd_op http json c.chan_list range request response w

  unfoldable pub call_delete_range : Req → Resp → W → Bool × Resp × W
  unfolding etcd_op
  call_delete_range request response w =
      etcd_op http json c.chan_list delete_range request response w

  unfoldable pub call_txn : Req → Resp → W → Bool × Resp × W
  unfolding etcd_op
  call_txn request response w = etcd_op http json c.chan_list txn request response w

  unfoldable pub call_compact : Req → Resp → W → Bool × Resp × W
  unfolding etcd_op
  call_compact request response w = etcd_op http json c.chan_list compact request response w

  unfoldable pub call_lease_grant : Req → Resp → W → Bool × Resp × W
  unfolding etcd_op
  call_lease_grant request response w = etcd_op http json c.chan_list lease_grant request response w

  unfoldable pub call_lease_revoke : Req → Resp → W → Bool × Resp × W
  unfolding etcd_op
  call_lease_revoke request response w =
      etcd_op http json c.chan_list lease_revoke request response w

  unfoldable pub call_lease_time_to_live : Req → Resp → W → Bool × Resp × W
  unfolding etcd_op
  call_lease_time_to_live request response w =
      etcd_op http json c.chan_list lease_ttl request response w

  unfoldable pub call_lease_leases : Req → Resp → W → Bool × Resp × W
  unfolding etcd_op
  call_lease_leases request response w =
      etcd_op http json c.chan_list lease_leases request response w

  unfoldable pub call_lease_keep_alive : Req → Resp → W → Bool × Resp × W
  unfolding etcd_op
  call_lease_keep_alive request response w =
      etcd_op http json c.chan_list lease_keepalive request response w
