-- ===== src/Orgs/Answer.antt =====
-- internal/api/respond.go and api.go: what a handler answers, and the organisation that it works on.
use cinc_server_ng.Prelude.{ℕ, List, ◌++◌, Bytes, lit, if◌then◌else◌}
use cinc_server_ng.Store.Memory.{has_org}
use cinc_server_ng.Store.Facade.{Store}
use cinc_server_ng.Search.Json.{Members}

-- writeError, writeStringError, writeRaw and writeJSON, each with what it is given
pub data Body : Type 0 where
  error_list error_text raw : Bytes → Body
  json : Members → Body
  json_list : List Members → Body

pub record Response : Type 0 where
  pub status : ℕ
  pub body : Body

abbrev pub answer : ℕ → Body → Response
answer status body = record { status = status; body = body }

-- API.org: the handler goes on, if the organisation is there.
unfoldable pub in_org :
    {W : Type 0} → Bytes → (Store W → Response × Store W) → Store W → Response × Store W
in_org org handler s =
    if has_org s.backend org
    then handler s
    else (answer 404 (error_list (lit "Cannot find org " ++ org)), s)
