-- ===== src/Orgs/Requests.antt =====
-- The requests of internal/api/association.go and association_requests.go that change the store.
pub mod Refused
pub mod Accepted
pub mod Kept
pub mod Joined
pub mod Left
mod Tests
use cinc_server_ng.Prelude.{Option, List, Bytes}
use cinc_server_ng.Store.Facade.{Store}
use cinc_server_ng.Search.Json.{Members}
use cinc_server_ng.Authz.Enforce.{Actor}
use cinc_server_ng.Groups.Codec.{Codec}
use cinc_server_ng.Orgs.Answer.{Response}
use cinc_server_ng.Orgs.Invites.{create_invite, rescind_invite, respond_invite}
use cinc_server_ng.Orgs.Associations.{associate_user, disassociate_user}

pub data OrgRequest : Type 0 where
  invite : (base org : Bytes) → Option Actor → Option Members → OrgRequest
  rescind : (org id : Bytes) → OrgRequest
  respond : Option Actor → (user id : Bytes) → Option Bytes → OrgRequest
  associate : (base org : Bytes) → Option Members → OrgRequest
  disassociate : (org user : Bytes) → OrgRequest

-- registerAssociationRoutes and registerAssociationRequestRoutes, for the methods that change something
unfoldable pub handle :
    {W : Type 0}
    → Codec
    → (Bytes → List Bytes × List Bytes × List Bytes)
    → OrgRequest
    → Store W
    → Response × Store W
unfolding create_invite rescind_invite respond_invite associate_user disassociate_user
handle C members (invite base org actor body) s = create_invite C base org actor body s
handle C members (rescind org id) s = rescind_invite C org id s
handle C members (respond actor user id response) s = respond_invite C actor user id response s
handle C members (associate base org body) s = associate_user C base org body s
handle C members (disassociate org user) s = disassociate_user C members org user s
