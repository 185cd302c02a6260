-- ===== src/Tests/Targets.antt =====
-- The targets of `PathIndexSelector` in pkg/server/target_selectors.go.
use proxyreverse.Prelude.{
  ◌≡◌, ◌↔◌, refl, [], ◌∷◌, Text, codes, arith, text_eq, ok, err, ℕ, pos, negsuc, none, some, false,
}
use proxyreverse.Go.Split.{split, join}
use proxyreverse.Go.HostPort.{split_host_port}
use proxyreverse.Go.Decimal.{parse_uint16, decimal}
use proxyreverse.Go.Panic.{index_out_of_range}
use proxyreverse.Go.Paths.{path_join, clean}
use proxyreverse.Http.{Request, HttpBackend, path_index_selector}
use proxyreverse.Target.{split_or_empty, with_port, path_index_target, delete_at}
use proxyreverse.Target.PathIndex.{IsNegative, path_index_target-middle, path_index_target-panics}

-- A backend that has no port.
abbrev backend : HttpBackend ℕ
backend = record {
  dial = some 0;
  proxychain = 0;
  target = [];
  port = 0;
  tls = record {
    enable = false;
    no_verify = false;
    server_name_indication = none;
    ca_certs = record { cert_pool = none; original = [] };
  };
  set_headers = [];
  del_headers = [];
  target_selector = path_index_selector (pos 1);
}

abbrev request_for : Text → Request
request_for path = record {
  method = codes "GET";
  host = codes "h";
  url = record {
    scheme = [];
    opaque = [];
    user = none;
    host = [];
    path = path;
    raw_path = [];
    force_query = false;
    raw_query = [];
    fragment = [];
    raw_fragment = [];
  };
  header = [];
  body = [];
}

path_index_tests :
    (path_index_target backend (request_for (codes "/app/x/y")) (pos 1)
      ≡ ok (codes "app:0", request_for (codes "x/y")))
    × (path_index_target backend (request_for (codes "/app")) (pos 2)
        ≡ ok (codes "", request_for (codes "/app")))
    × (path_index_target backend (request_for (codes "/app:80/x")) (pos 1)
        ≡ ok (codes "app:80:80", request_for (codes "x")))
unfolding path_index_target split join split_host_port parse_uint16 path_join clean text_eq decimal
    delete_at
path_index_tests = (refl, refl, refl)

path_index_target-middle_example :
    path_index_target backend (request_for (codes "/x/app")) (pos 2)
    ≡ ok (
      with_port (codes "app") (parse_uint16 (split_or_empty (codes "app")).1).0,
      request_for (path_join ([] ∷ codes "x" ∷ [])),
    )
path_index_target-middle_example =
    path_index_target-middle backend (request_for (codes "/x/app")) ([] ∷ codes "x" ∷ []) []
      (codes "app") (omega arith) (unfold join in refl) (omega arith)

path_index_target-panics_test :
    (path_index_target backend (request_for (codes "/")) (negsuc 0) ≡ err index_out_of_range)
    ↔ IsNegative (negsuc 0)
path_index_target-panics_test =
    path_index_target-panics backend (request_for (codes "/")) (negsuc 0) (ground arith)
