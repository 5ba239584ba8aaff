-- ===== src/Examples/Devices.antt =====
-- The theorems on devices at concrete data.
use device_management_platfo.Base.{◌*◌, refl, false, some, [], ◌∷◌, find, exists, List}
use device_management_platfo.Store.{second}
use device_management_platfo.Store.Devices.{
  CreateEndpointInput, CreateDeviceInput, UpdateDeviceInput, Draws,
}
use device_management_platfo.Store.Devices.Edits.{is_busy, update_device}
use device_management_platfo.Store.Devices.Busy.{busy_endpoint_lasts}
use device_management_platfo.Store.Devices.Serves.{Serves}
use device_management_platfo.Examples.{after, sample, note, endpoint}

abbrev draws : Draws
draws = record { device_id = "d9"; audit_id = "l9"; endpoint_id = λ n. "e9"; now = 20 * second }

abbrev panel : CreateEndpointInput
panel = record {
  id = "e1";
  is_new = false;
  name = "Console";
  protocol = "http";
  target_port = 8080;
  tls_server_name = "";
  credential_ref = "";
  ssh_auth_method = "";
  ssh_username = "";
  ssh_key_path = "";
  ssh_host_key_fingerprint = "";
}

-- It asks for another port of an endpoint with an active session.
abbrev edit : UpdateDeviceInput
edit = record {
  host = "";
  name = "Camera 2";
  device_type = "camera";
  vendor = "";
  endpoints = some (panel ∷ []);
}

busy_endpoint_lasts_example :
    Serves "e1" "d1" "http" 80 (update_device after draws "p1" "d1" edit note sample).0.endpoints
unfolding find is_busy exists
busy_endpoint_lasts_example =
    busy_endpoint_lasts after draws "p1" edit note sample endpoint refl refl refl ((λ e. cc), tt)

abbrev router : CreateDeviceInput
router = record {
  host = "192.168.1.1";
  name = "Router";
  device_type = "router";
  vendor = "";
  source = "import";
  endpoints = record panel { id = ""; name = "Web" } ∷ [];
}

abbrev batch : List (Draws × CreateDeviceInput)
batch =
    (draws, router)
    ∷ (
      record draws { device_id = "d8"; audit_id = "l8"; endpoint_id = λ n. "e8" },
      record router { host = "192.168.1.7" },
    )
    ∷ []
