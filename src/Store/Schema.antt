-- ===== src/Store/Schema.antt =====
-- crates/esgraph-store/src/schema.rs: the tables that `init_schema` creates, word for word.
pub mod Tables
use esgraph.Prelude.{List, [], ◌∷◌, ◌++◌}
use esgraph.Prelude.Text.{Text, text}

abbrev process_table : Text
process_table =
    text "CREATE NODE TABLE IF NOT EXISTS Process (\n"
    ++ (text "        id STRING PRIMARY KEY,\n"
        ++ (text "        pid INT64,\n"
            ++ (text "        path STRING,\n"
                ++ (text "        last_seen_unix_ns INT64,\n"
                    ++ (text "        signing_id STRING,\n"
                        ++ (text "        team_id STRING,\n"
                            ++ (text "        cdhash STRING,\n"
                                ++ (text "        ppid INT64,\n"
                                    ++ (text "        euid INT64,\n"
                                        ++ (text "        egid INT64,\n"
                                            ++ (text "        ruid INT64,\n"
                                                ++ (text "        rgid INT64,\n"
                                                    ++ (text "        session_id INT64,\n"
                                                        ++ (text
                                                            "        is_platform_binary BOOLEAN,\n"
                                                            ++ (text
                                                            "        parent_audit_token_hex STRING,\n"
                                                            ++ (text "        args_json STRING,\n"
                                                            ++ (text "        exit_status INT64\n"
                                                            ++ text "    )")))))))))))))))))

abbrev file_table : Text
file_table =
    text "CREATE NODE TABLE IF NOT EXISTS File (\n"
    ++ (text "        id STRING PRIMARY KEY,\n"
        ++ (text "        path STRING,\n"
            ++ (text "        last_seen_unix_ns INT64,\n"
                ++ (text "        path_truncated BOOLEAN,\n"
                    ++ (text "        inode INT64,\n"
                        ++ (text "        mode INT64,\n"
                            ++ (text "        owner_uid INT64,\n"
                                ++ (text "        owner_gid INT64\n" ++ text "    )"))))))))

abbrev socket_table : Text
socket_table =
    text "CREATE NODE TABLE IF NOT EXISTS Socket (\n"
    ++ (text "        id STRING PRIMARY KEY,\n"
        ++ (text "        path STRING,\n"
            ++ (text "        last_seen_unix_ns INT64\n" ++ text "    )")))

abbrev ingestevent_table : Text
ingestevent_table =
    text "CREATE NODE TABLE IF NOT EXISTS IngestEvent (\n"
    ++ (text "        id INT64 PRIMARY KEY,\n"
        ++ (text "        event_name STRING,\n"
            ++ (text "        timestamp_unix_ns INT64,\n"
                ++ (text "        context_json STRING,\n"
                    ++ (text "        raw_json STRING\n" ++ text "    )")))))

-- The columns that every relationship table has.
abbrev rel_columns : Text
rel_columns =
    text "        timestamp_unix_ns INT64,\n"
    ++ (text "        event_name STRING,\n"
        ++ (text "        ingest_event_id INT64,\n"
            ++ (text "        metadata STRING\n" ++ text "    )")))

abbrev rel_table : Text → Text → Text → Text
rel_table name from to =
    text "CREATE REL TABLE IF NOT EXISTS "
    ++ (name
        ++ (text " (\n        FROM "
            ++ (from ++ (text " TO " ++ (to ++ (text ",\n" ++ rel_columns))))))

-- `INIT_SCHEMA`
unfoldable pub init_schema : List Text
init_schema =
    process_table
    ∷ file_table
    ∷ socket_table
    ∷ ingestevent_table
    ∷ rel_table (text "EXECUTED") (text "Process") (text "Process")
    ∷ rel_table (text "FORKED") (text "Process") (text "Process")
    ∷ rel_table (text "EXITED") (text "Process") (text "Process")
    ∷ rel_table (text "REMOTE_THREAD_CREATED") (text "Process") (text "Process")
    ∷ rel_table (text "GOT_TASK") (text "Process") (text "Process")
    ∷ rel_table (text "CREATED") (text "Process") (text "File")
    ∷ rel_table (text "WROTE") (text "Process") (text "File")
    ∷ rel_table (text "UNLINKED") (text "Process") (text "File")
    ∷ rel_table (text "RENAMED") (text "Process") (text "File")
    ∷ rel_table (text "OPENED") (text "Process") (text "File")
    ∷ rel_table (text "CLOSED") (text "Process") (text "File")
    ∷ rel_table (text "UIPC_BOUND") (text "Process") (text "Socket")
    ∷ rel_table (text "UIPC_CONNECTED") (text "Process") (text "Socket")
    ∷ []
