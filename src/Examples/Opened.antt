-- ===== src/Examples/Opened.antt =====
-- What a run of the examples computes with: the operations on documents, and the whole server.
use aideep_websocket.Auth
use aideep_websocket.Common.Dict
use aideep_websocket.Common.Items
use aideep_websocket.Common.Strings
use aideep_websocket.RedisKeys
use aideep_websocket.Attachments
use aideep_websocket.Attachments.Urls
use aideep_websocket.Yjs.Markdown
use aideep_websocket.Yjs.CrdtService
use aideep_websocket.Yjs.Managed
use aideep_websocket.Yjs.Lifecycle
use aideep_websocket.Yjs.Flush
use aideep_websocket.Yjs.DocManager
use aideep_websocket.Yjs.Exclusive
use aideep_websocket.Yjs.FlushAll
use aideep_websocket.Yjs.Loading
use aideep_websocket.Membership
use aideep_websocket.Ws.Event
use aideep_websocket.Ws.Presence
use aideep_websocket.Ws.State
use aideep_websocket.Ws.Gateway
use aideep_websocket.Ws.YjsHandlers
use aideep_websocket.NodeContent.Service
use aideep_websocket.EventBus.Subscriber
use aideep_websocket.Server

-- Opens the operations on texts, rows and documents.
unfoldable pub documents : Unit {0}
unfolding Auth.token_of Auth.is_revoked Auth.check_stored Auth.check_master Auth.validate Dict.get
    Dict.insert Dict.remove Items.has Items.add Items.delete Strings.text_eq
    RedisKeys.workspace_sync RedisKeys.yjs_doc RedisKeys.yjs_ws_awareness
    RedisKeys.node_content_operation RedisKeys.ws_presence RedisKeys.embed_jobs_queue
    RedisKeys.blacklist RedisKeys.master_token Attachments.without Attachments.is_stale
    Attachments.find_file_ids_by_s3_keys Attachments.find_attached_file_ids_by_node_id
    Attachments.create_attachments Attachments.delete_attachments
    Attachments.count_attachments_by_file_ids Attachments.mark_files_active
    Attachments.mark_files_orphan Attachments.mark_files_deleted Attachments.find_stale_files
    Attachments.extract_referenced_file_ids Attachments.orphan_unreferenced_files
    Attachments.attach_files Attachments.detach_files Attachments.sync_node_attachments
    Attachments.release_node_attachments Urls.is_space Urls.is_url_char Urls.take_url
    Urls.strip_prefix Urls.match_url Urls.match_urls Urls.get_public_url Urls.extract_key_from_url
    Urls.extract_keys Urls.distinct Markdown.trim_end Markdown.trim_start Markdown.trim
    Markdown.next_markdown Markdown.create_doc_binding Markdown.yjs_doc_to_markdown
    Markdown.yjs_doc_to_attachment_content Markdown.markdown_to_yjs_update
    Markdown.append_markdown_to_yjs_doc CrdtService.spread CrdtService.body_text
    CrdtService.load_from_redis CrdtService.save_to_redis CrdtService.delete_from_redis
    CrdtService.bootstrap_state CrdtService.load_row CrdtService.load_from_db
    CrdtService.write_node_row CrdtService.update_node_row CrdtService.save_to_db
    Managed.without_handle Managed.clear_timeout Managed.set_timeout Managed.put_doc
    Managed.drop_doc Managed.enqueue_embed_job Lifecycle.wake Lifecycle.get_client_count
    Lifecycle.get_doc Lifecycle.destroy_doc Lifecycle.evict_doc Lifecycle.run_action Lifecycle.fire
    Lifecycle.find_state Lifecycle.build_doc Lifecycle.register_doc Lifecycle.load_doc
    Lifecycle.get_or_create_doc Lifecycle.cleanup_node Flush.saved_result Flush.saved_doc
    Flush.embed_user Flush.markdown_text Flush.begin_write Flush.begin_loaded Flush.begin Flush.save
    Flush.enqueue_if_edited Flush.commit Flush.finish Flush.flush_doc_locked DocManager.add_client
    DocManager.leave_idle DocManager.remove_client DocManager.editor_or DocManager.schedule_save
    DocManager.apply_update DocManager.handle_flush_error DocManager.background_flush
    DocManager.mark_appended DocManager.append_markdown DocManager.flush_each DocManager.flush_all
    DocManager.on_module_destroy Exclusive.enqueue Exclusive.set_phase Exclusive.is_free
    Exclusive.leave FlushAll.advance FlushAll.turn FlushAll.start FlushAll.run Loading.begin_load
    Loading.call Loading.set_phase Loading.register Loading.leave Loading.drop
documents = tt

-- Opens the handlers too.
unfoldable pub server : Unit {0}
unfolding documents Membership.check_workspace Event.bot_type Event.type_of Event.user_of
    Event.echo_suppressed_types Event.yjs_room Event.yjs_ws_room Event.user_room
    Presence.upsert_presence Presence.remove_presence Presence.parse_members Presence.list_presence
    Presence.cache_awareness Presence.get_cached_awareness Presence.delete_awareness
    State.client_data State.set_data State.send Gateway.handshake_token Gateway.excluded_room
    Gateway.count_connection Gateway.uncount_connection Gateway.accept Gateway.handle_live_position
    Gateway.handle_cursor_move Gateway.handle_connection Gateway.broadcast_presence
    Gateway.leave_presence Gateway.remove_from_docs Gateway.leave_docs Gateway.handle_disconnect
    Gateway.send_cached_awareness Gateway.enter_workspace Gateway.enter_and_announce Gateway.join_as
    Gateway.handle_join Gateway.relay_ws_awareness Gateway.handle_ws_awareness
    Gateway.after_broadcast Gateway.broadcast Gateway.broadcast_yjs_update YjsHandlers.is_viewer
    YjsHandlers.track_room YjsHandlers.untrack_room YjsHandlers.mark_read_only
    YjsHandlers.is_read_only YjsHandlers.set_doc YjsHandlers.send_reply
    YjsHandlers.handle_yjs_awareness YjsHandlers.remember_membership YjsHandlers.cached_membership
    YjsHandlers.open_doc YjsHandlers.yjs_join_as YjsHandlers.handle_yjs_join
    YjsHandlers.relay_update YjsHandlers.handle_yjs_sync YjsHandlers.handle_yjs_leave
    Service.is_valid_key Service.is_blank Service.is_markdown Service.validate Service.check_role
    Service.check_target Service.patch_target Service.answer_claim Service.check_version
    Service.select_node_by_id Service.check_edit_permission Service.admit Service.answer_raw
    Service.claim_key Service.append_or_release Service.in_progress_claim Service.done_claim
    Service.response_of Service.record_response Service.claim_request Service.perform
    Service.execute_content_operation Service.append_patch Service.apply_claimed Service.claim_patch
    Service.claim_and_apply Service.patch_found Service.apply_node_body_patch Subscriber.dispatch
    Subscriber.handle_envelope Subscriber.parse_and_handle Subscriber.handle_message Server.step
    Server.run
server = tt
