-- ===== src/Agent/Sample.antt =====
-- A contract that the agent accepts: of one signed plan and one target, with the action of the plan.
use lsa.Base.{true, false, string_eq, pos}
use lsa.Json.{Fields, nil, cons, end, field, null, bool, int, str, list, dict}
use lsa.Scenario.{safeguards, zeros}
use lsa.Agent.Contract.Preview.{Pins}

abbrev pub snapshot : Fields
snapshot = field "action_id" (str "linux.ssh") (
    field "version" (int (pos 1)) (
      field "digest" (str "digest") (
        field "status" (str "reviewed") (
          field "control_ids" (list (cons (str "ssh-1") nil)) (
            field "title" (str "SSH") (
              field "description" (str "SSH") (
                field "supported_systems"
                  (list (
                    cons
                      (dict (
                        field "family" (str "debian")
                          (field "versions" (list (cons (str "12") nil)) end)))
                      nil))
                  (field "risk" (str "low") (
                    field "parameters" (list nil) (
                      field "preconditions"
                        (list (
                          cons
                            (dict (
                              field "kind" (str "command_available") (
                                field "resource" (str "sshd") (
                                  field "expected" (bool true) (
                                    field "failure_mode" (str "stop")
                                      (field "description" (str "sshd") end))))))
                            nil))
                        (field "operations"
                          (list (
                            cons
                              (dict (
                                field "kind" (str "config_setting") (
                                  field "resource" (str "sshd") (
                                    field "path" (str "/etc/ssh/sshd_config") (
                                      field "format" (str "sshd") (
                                        field "key" (str "PermitRootLogin") (
                                          field "value_from" (str "no")
                                            (field "backup_required" (bool true) end))))))))
                              nil))
                          (field "validation"
                            (list (
                              cons
                                (dict (
                                  field "kind" (str "effective_setting") (
                                    field "resource" (str "openssh_server") (
                                      field "key" (str "permitrootlogin")
                                        (field "expected" (str "no") end)))))
                                nil))
                            (field "rollback"
                              (list (
                                cons
                                  (dict (
                                    field "kind" (str "restore_backup") (
                                      field "resource" (str "sshd") (
                                        field "path" (str "/etc/ssh/sshd_config") (
                                          field "format" null (
                                            field "key" null (
                                              field "value_from" null
                                                (field "backup_required" (bool false) end))))))))
                                  nil))
                              (field "impact"
                                (dict (
                                  field "service_restart" (bool true) (
                                    field "reboot_required" (bool false) (
                                      field "availability" (str "brief")
                                        (field "notes" (str "") end)))))
                                (field "execution_enabled" (bool false)
                                  (field "execution_status" (str "catalog_only") end))))))))))))))))

abbrev pub entry : Fields
entry = field "plan_id" (str "pl1") (
    field "host_id" (str "h1") (
      field "control_id" (str "ssh-1") (
        field "action_id" (str "linux.ssh") (
          field "action_version" (int (pos 1))
            (field "action_digest" (str "digest") (field "action_snapshot" (dict snapshot) end))))))

abbrev pub plan_record : Fields
plan_record = field "plan_id" (str "pl1") (
    field "host_id" (str "h1") (
      field "report_id" (str "r1") (
        field "control_id" (str "ssh-1") (
          field "action_id" (str "linux.ssh")
            (field "action_version" (int (pos 1)) (field "action_digest" (str "digest") end))))))

abbrev pub signed_target : Fields
signed_target = field "host_id" (str "h1") (
    field "hostname" (str "web") (
      field "agent_id" (str "a1") (
        field "group_id" (str "g1") (
          field "group_name" (str "Group") (
            field "policy_id" (str "p1") (
              field "policy_name" (str "Policy") (
                field "policy_version" (int (pos 1)) (
                  field "rollout_phase" (str "canary") (
                    field "required_capability" (str "signed-change-set-planning-v1")
                      (field "capability_attested" (bool true) end))))))))))

abbrev pub signed_payload : Fields
signed_payload = field "schema_version" (str "1.0") (
    field "change_set_id" (str "cs1") (
      field "tenant_id" (str "t") (
        field "requested_at" (str "time") (
          field "maintenance_window"
            (dict (field "start" (str "start") (field "end" (str "end") end)))
            (field "rollout"
              (dict (
                field "strategy" (str "canary") (
                  field "batch_size" (int (pos 1))
                    (field "batch_interval_minutes" (int (pos 15)) end))))
              (field "safeguards" (dict safeguards) (
                field "plans"
                  (list (
                    cons
                      (dict (
                        field "plan_id" (str "pl1") (
                          field "host_id" (str "h1") (
                            field "report_id" (str "r1") (
                              field "control_id" (str "ssh-1") (
                                field "action_id" (str "linux.ssh") (
                                  field "action_version" (int (pos 1))
                                    (field "action_digest" (str "digest") end))))))))
                      nil))
                  (field "targets" (list (cons (dict signed_target) nil)) end))))))))

abbrev pub descriptor : Fields
descriptor = field "key_id" (str "c1") (
    field "algorithm" (str "Ed25519")
      (field "public_key" (str "key") (field "fingerprint" (str "digest") end)))

abbrev pub endorsement : Fields
endorsement = field "schema_version" (str "1.0") (
    field "kind" (str "change-signing-key-endorsement") (
      field "tenant_id" (str "t") (
        field "purpose" (str "remediation-validation") (
          field "platform_command_key_id" (str "k1")
            (field "change_signing_key" (dict descriptor) end)))))

abbrev pub signed_set : Fields
signed_set = field "change_set_id" (str "cs1") (
    field "tenant_id" (str "t") (
      field "digest" (str "digest") (
        field "payload" (dict signed_payload)
          (field "signature" (str "signature") (field "signing_key" (dict descriptor) end)))))

abbrev pub accepted_contract : Fields
accepted_contract = field "schema_version" (str "1.0") (
    field "contract_type" (str "remediation-validation") (
      field "mode" (str "validate_only") (
        field "execution_enabled" (bool false) (
          field "dispatch_enabled" (bool false) (
            field "change_set" (dict signed_set) (
              field "platform_endorsement" (dict endorsement) (
                field "platform_endorsement_signature" (str "signature") (
                  field "target" (dict signed_target)
                    (field "actions" (list (cons (dict entry) nil)) end)))))))))

abbrev pub pins : Pins
pins = record {
  platform_key = zeros 32;
  platform_raw = zeros 32;
  platform_key_id = "k1";
  agent_id = "a1";
  host_id = "h1";
}
